-- ===== src/Auth/Calls.antt =====
-- What a call of a mounted provider sends, and what becomes of the session.
use pecunia.Prelude.{
  true≢false, false≢true, sym, ◌⊎◌, inl, inr, String, ◌≡◌, ap, ◌∙◌, Bool, true, false, none, List,
  [], ◌∷◌, ◌++◌, append_assoc, if◌then◌else◌,
}
use pecunia.Api.{
  Reply, outcome_of, Json, property, ApiFetchOptions, Request, request, Outcome, is_unauthorized,
  attempt,
}
use pecunia.Api.Exchange.{Exchange, once, declined, replayed, perform_fetch-Exchange}
use pecunia.Auth.{
  deliver, AuthState, World, transport, cleared, applied, string_of, silent_refresh, api_fetch,
}
use pecunia.Auth.Session.{
  Gives, SendsOne, sent_by, attempt-SendsOne, Refreshed, renewed, signed_out, refresh_request,
  Refreshes, silent_refresh-Refreshes,
}

-- The next replies of a world.
abbrev pub first_reply : World → Reply
first_reply w = (deliver w.replies).0

abbrev pub second_reply : World → Reply
second_reply w = (deliver (deliver w.replies).1).0

abbrev pub third_reply : World → Reply
third_reply w = (deliver (deliver (deliver w.replies).1).1).0

-- The ways a call runs, by the replies it meets: its outcome, the session it leaves, and the
-- requests it sends.
pub data Calls (w : World) (path : String) (opts : ApiFetchOptions)
    : Outcome → AuthState → List Request → Type 0 where
  answered :
      (is_unauthorized (outcome_of (first_reply w)) ≡ false) ⊎ (opts.skip_auth_retry ≡ true)
      → Calls w path opts (outcome_of (first_reply w)) w.auth (sent_by w path opts ∷ [])
  refused :
      is_unauthorized (outcome_of (first_reply w)) ≡ true
      → opts.skip_auth_retry ≡ false
      → ((token : Json) → ¬ Gives (second_reply w) token)
      → Calls w path opts
          (outcome_of (first_reply w))
          cleared
          (sent_by w path opts ∷ refresh_request w ∷ [])
  renewed_once :
      is_unauthorized (outcome_of (first_reply w)) ≡ true
      → opts.skip_auth_retry ≡ false
      → (token : Json) → Gives (second_reply w) token
      → Calls w path opts (outcome_of (third_reply w)) (applied token w.auth) (
          sent_by w path opts
          ∷ refresh_request w
          ∷ request (string_of (property "access_token" token)) path opts
          ∷ [])

module _ (w : World) (path : String) (opts : ApiFetchOptions) (h : w.mounted ≡ true) where
  abbrev first : Outcome × World
  first = attempt transport path opts w

  first-SendsOne : SendsOne w (sent_by w path opts) first.1
  first-SendsOne = attempt-SendsOne path opts w

  refresh-first : Refreshes first.1 (silent_refresh first.1).0 (silent_refresh first.1).1
  refresh-first = silent_refresh-Refreshes first.1

  -- The refresh that the first answer triggers, told from the world before the call.
  refresh_sent :
      (silent_refresh first.1).1.sent ≡ w.sent ++ (sent_by w path opts ∷ refresh_request w ∷ [])
  unfolding attempt
  refresh_sent =
      refresh-first.one_request
      ∙ append_assoc w.sent (sent_by w path opts ∷ []) (refresh_request w ∷ [])

  refresh_mounted : (silent_refresh first.1).1.mounted ≡ true
  unfolding attempt
  refresh_mounted = refresh-first.same_mount ∙ h

  refresh_session :
      Refreshed w.auth (second_reply w) (silent_refresh first.1).0 (silent_refresh first.1).1.auth
  unfolding attempt
  refresh_session = refresh-first.session

  refresh_replies : (silent_refresh first.1).1.replies ≡ (deliver (deliver w.replies).1).1
  unfolding attempt
  refresh_replies = refresh-first.one_reply

  -- The three requests of a replayed call, whose last one has the token of the session then.
  abbrev replay : World → Outcome × World
  replay v = attempt transport path opts v

  -- A call that ended in the world with the requests it sent.
  abbrev pub Ends : Outcome → World → Type 0
  Ends o v = (log : List Request) × (v.sent ≡ w.sent ++ log) × Calls w path opts o v.auth log

  of_declined :
      (v : World) (answer : Bool)
      → Refreshed w.auth (second_reply w) answer v.auth
      → answer ≡ false
      → v.sent ≡ w.sent ++ (sent_by w path opts ∷ refresh_request w ∷ [])
      → is_unauthorized first.0 ≡ true
      → opts.skip_auth_retry ≡ false
      → Ends first.0 v
  unfolding attempt
  of_declined v answer r e s u k =
      (sent_by w path opts ∷ refresh_request w ∷ [], s, choose answer v.auth r e)
    where
      choose :
          (b : Bool) (a : AuthState)
          → Refreshed w.auth (second_reply w) b a
          → b ≡ false
          → Calls w path opts first.0 a (sent_by w path opts ∷ refresh_request w ∷ [])
      choose true a (renewed token g) q = absurd (true≢false q)
      choose false a (signed_out n) q = refused u k n

  of_replayed :
      (v : World) (answer : Bool)
      → Refreshed w.auth (second_reply w) answer v.auth
      → answer ≡ true
      → v.sent ≡ w.sent ++ (sent_by w path opts ∷ refresh_request w ∷ [])
      → v.mounted ≡ true
      → v.replies ≡ (deliver (deliver w.replies).1).1
      → is_unauthorized first.0 ≡ true
      → opts.skip_auth_retry ≡ false
      → Ends (replay v).0 (replay v).1
  unfolding attempt applied
  of_replayed v answer r e s m l u k = (
    sent_by w path opts ∷ refresh_request w ∷ sent_by v path opts ∷ [],
    ap (λ x. x ++ (sent_by v path opts ∷ [])) s ∙ append_assoc w.sent _ _,
    choose answer v.auth r e,
  )
    where
      choose :
          (b : Bool) (a : AuthState)
          → Refreshed w.auth (second_reply w) b a
          → b ≡ true
          → Calls w path opts (replay v).0 a (
              sent_by w path opts
              ∷ refresh_request w
              ∷ request (if v.mounted then a.token else none) path opts
              ∷ [])
      choose true a (renewed token g) q = rw (m, l) (renewed_once u k token g)
      choose false a (signed_out n) q = absurd (false≢true q)

  ends : (o : Outcome) (v : World) → Exchange transport silent_refresh path opts w o v → Ends o v
  unfolding attempt
  ends o v (once (inl e)) = (sent_by w path opts ∷ [], first-SendsOne.one_request, answered (inl e))
  ends o v (once (inr (inl e))) =
      (sent_by w path opts ∷ [], first-SendsOne.one_request, answered (inr e))
  ends o v (once (inr (inr e))) = absurd (true≢false (sym h ∙ e))
  ends o v (declined u k _ d) =
      of_declined (silent_refresh first.1).1 (silent_refresh first.1).0 refresh_session d
        refresh_sent u k
  ends o v (replayed u k _ d) =
      of_replayed (silent_refresh first.1).1 (silent_refresh first.1).0 refresh_session d
        refresh_sent refresh_mounted refresh_replies u k

  -- A call of a mounted provider sends its request, with the session's token. If it opts out, or
  -- its reply is no 401, the reply is its outcome and the session stays. After a 401 a refresh is
  -- sent: if the reply is not a token response, the session is cleared and the 401 stands; if it
  -- is, the session takes its token, the request is sent once more with that token, and the third
  -- reply is the outcome, whatever it is. So a call sends at most three requests.
  pub api_fetch-Calls : Ends (api_fetch path opts w).0 (api_fetch path opts w).1
  unfolding api_fetch
  api_fetch-Calls =
      ends (api_fetch path opts w).0 (api_fetch path opts w).1
        (perform_fetch-Exchange transport silent_refresh path opts w)
