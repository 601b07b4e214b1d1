-- ===== src/Auth/Session.antt =====
-- The requests and the session that the auth module's operations leave.
use mathlib.Core.Path.{subst}
use pecunia.Prelude.{
  false≢true, String, ◌≡◌, refl, sym, ap, ◌∙◌, Bool, true, false, none, some, [], ◌∷◌, ◌++◌,
  if◌then◌else◌,
}
use pecunia.Api.{
  Reply, outcome_of, Json, is_null, ApiFetchOptions, Request, request, Outcome, returned, threw,
  network_error, syntax_error, type_error, attempt,
}
use pecunia.Api.Exchange.{perform_fetch_opt_out}
use pecunia.Auth.{
  finish_boot, deliver, AuthState, World, transport, cleared, clear_auth, applied, readable, post,
  no_handler, finish_refresh, silent_refresh,
}

-- The request that a call sends from the world.
abbrev pub sent_by : World → String → ApiFetchOptions → Request
sent_by w path opts = request (if w.mounted then w.auth.token else none) path opts

-- One request is sent, and the session stays.
pub record SendsOne (w : World) (r : Request) (after : World) : Type 0 where
  pub same_session : after.auth ≡ w.auth
  pub same_mount : after.mounted ≡ w.mounted
  pub one_request : after.sent ≡ w.sent ++ (r ∷ [])
  pub one_reply : after.replies ≡ (deliver w.replies).1

pub attempt-SendsOne :
    (path : String) (opts : ApiFetchOptions) (w : World)
    → SendsOne w (sent_by w path opts) (attempt transport path opts w).1
unfolding attempt
attempt-SendsOne path opts w = record {
  same_session = refl;
  same_mount = refl;
  one_request = refl;
  one_reply = refl;
}

-- A reply that is a token response: a success whose body is a value other than null.
abbrev pub Gives : Reply → Json → Type 0
Gives reply token = (outcome_of reply ≡ returned (some token)) × (is_null token ≡ false)

-- How a refresh from the session ends that meets the reply, with its answer: the token of a token
-- response is taken, and any other reply signs out.
pub data Refreshed (before : AuthState) (reply : Reply) : Bool → AuthState → Type 0 where
  renewed : (token : Json) → Gives reply token → Refreshed before reply true (applied token before)
  signed_out : ((token : Json) → ¬ Gives reply token) → Refreshed before reply false cleared

abbrev is_value : Outcome → Bool
is_value (returned (some j)) = true
is_value (returned none) = false
is_value (threw e) = false
is_value network_error = false
is_value syntax_error = false
is_value type_error = false

-- What a reply comes to once its properties are read: a value other than null, or no value.
pub data Reads (reply : Reply) : Outcome → Type 0 where
  value : (j : Json) → Gives reply j → Reads reply (returned (some j))
  no_value : ((j : Json) → ¬ Gives reply j) → (o : Outcome) → is_value o ≡ false → Reads reply o

not_given :
    (reply : Reply) (o : Outcome)
    → outcome_of reply ≡ o
    → is_value o ≡ false
    → (j : Json) → ¬ Gives reply j
not_given reply o q n j g = false≢true (sym n ∙ ap is_value (sym q ∙ g.0))

pub reading-Reads : (reply : Reply) (o : Outcome) → outcome_of reply ≡ o → Reads reply (readable o)
reading-Reads reply (returned none) q = no_value (not_given reply _ q refl) type_error refl
reading-Reads reply (returned (some j)) q = go (is_null j) refl
  where
    same : (t : Json) → returned (some j) ≡ returned (some t) → j ≡ t
    same t z = cc

    go : (b : Bool) → is_null j ≡ b → Reads reply (if b then type_error else returned (some j))
    go true e =
        no_value (λ t g. false≢true (sym g.1 ∙ ap is_null (sym (same t (sym q ∙ g.0))) ∙ e))
          type_error refl
    go false e = value j (q, e)
reading-Reads reply (threw x) q = no_value (not_given reply _ q refl) (threw x) refl
reading-Reads reply network_error q = no_value (not_given reply _ q refl) network_error refl
reading-Reads reply syntax_error q = no_value (not_given reply _ q refl) syntax_error refl
reading-Reads reply type_error q = no_value (not_given reply _ q refl) type_error refl

-- Without a value the refresh clears the session.
finish_failed :
    (o : Outcome) (w : World) → is_value o ≡ false → finish_refresh o w ≡ (false, clear_auth w)
unfolding finish_refresh clear_auth
finish_failed (returned (some j)) w h = absurd (false≢true (sym h))
finish_failed (returned none) w h = refl
finish_failed (threw e) w h = refl
finish_failed network_error w h = refl
finish_failed syntax_error w h = refl
finish_failed type_error w h = refl

-- Nor does the mount effect leave anything without one.
pub finish_boot_failed :
    (o : Outcome) (w : World) → is_value o ≡ false → (finish_boot o w).auth ≡ cleared
unfolding finish_boot clear_auth
finish_boot_failed (returned (some j)) w h = absurd (false≢true (sym h))
finish_boot_failed (returned none) w h = refl
finish_boot_failed (threw e) w h = refl
finish_boot_failed network_error w h = refl
finish_boot_failed syntax_error w h = refl
finish_boot_failed type_error w h = refl

of_reading :
    (o : Outcome) (w : World) (reply : Reply)
    → Reads reply o
    → Refreshed w.auth reply (finish_refresh o w).0 (finish_refresh o w).1.auth
unfolding finish_refresh clear_auth
of_reading o w reply (value j g) = renewed j g
of_reading o w reply (no_value n _ h) = rw (finish_failed o w h) (signed_out n)

-- Finishing a refresh sends nothing.
finish_quiet :
    (o : Outcome) (w : World)
    → ((finish_refresh o w).1.sent ≡ w.sent)
      × ((finish_refresh o w).1.mounted ≡ w.mounted)
      × ((finish_refresh o w).1.replies ≡ w.replies)
unfolding finish_refresh clear_auth
finish_quiet (returned none) w = (refl, refl, refl)
finish_quiet (returned (some j)) w = (refl, refl, refl)
finish_quiet (threw e) w = (refl, refl, refl)
finish_quiet network_error w = (refl, refl, refl)
finish_quiet syntax_error w = (refl, refl, refl)
finish_quiet type_error w = (refl, refl, refl)

abbrev pub refresh_request : World → Request
refresh_request w = sent_by w "/auth/refresh" (post none)

-- A refresh sends one request, and leaves the session renewed or cleared.
pub record Refreshes (w : World) (answer : Bool) (after : World) : Type 0 where
  pub session : Refreshed w.auth (deliver w.replies).0 answer after.auth
  pub same_mount : after.mounted ≡ w.mounted
  pub one_request : after.sent ≡ w.sent ++ (refresh_request w ∷ [])
  pub one_reply : after.replies ≡ (deliver w.replies).1

abbrev refresh_attempt : World → Outcome × World
refresh_attempt w = attempt transport "/auth/refresh" (post none) w

answer_of : (w : World) → outcome_of (deliver w.replies).0 ≡ (refresh_attempt w).0
unfolding attempt
answer_of w = refl

silent_refresh-unfold :
    (w : World)
    → silent_refresh w ≡ finish_refresh (readable (refresh_attempt w).0) (refresh_attempt w).1
unfolding silent_refresh
silent_refresh-unfold w =
    ap (λ (r : Outcome × World). finish_refresh (readable r.0) r.1)
      (perform_fetch_opt_out transport no_handler "/auth/refresh" (post none) w refl)

pub silent_refresh-Refreshes : (w : World) → Refreshes w (silent_refresh w).0 (silent_refresh w).1
silent_refresh-Refreshes w =
    let s = attempt-SendsOne "/auth/refresh" (post none) w in
    let r = refresh_attempt w in
    let q = finish_quiet (readable r.0) r.1 in
    subst (λ (x : Bool × World). Refreshes w x.0 x.1) (sym (silent_refresh-unfold w))
      (record {
        session =
            subst
              (λ (a : AuthState).
                Refreshed a (deliver w.replies).0 (finish_refresh (readable r.0) r.1).0
                  (finish_refresh (readable r.0) r.1).1.auth)
              s.same_session
              (of_reading (readable r.0) r.1 (deliver w.replies).0
                (reading-Reads (deliver w.replies).0 r.0 (answer_of w)));
        same_mount = q.1 ∙ s.same_mount;
        one_reply = q.2 ∙ s.one_reply;
        one_request = q.0 ∙ s.one_request;
      })
