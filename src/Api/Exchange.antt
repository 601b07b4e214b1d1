-- ===== src/Api/Exchange.antt =====
-- The requests of one call of `performFetch`: one, or a refresh and at most one replay.
use pecunia.Prelude.{
  not, ◌&&◌, ◌⊎◌, inl, inr, String, ◌≡◌, refl, Bool, true, false, arith, if◌then◌else◌,
}
use pecunia.Api.{
  ApiFetchOptions, Outcome, is_unauthorized, Transport, attempt, wants_refresh, retry_if,
  perform_fetch,
}

-- The ways a call with the options runs, from the world it starts in to its outcome and the world
-- it ends in.
pub data Exchange {W : Type 0} (t : Transport W) (on_unauthorized : W → Bool × W) (path : String)
    (opts : ApiFetchOptions) (w : W) : Outcome → W → Type 0 where
  -- The first answer stands: it is no 401, or the call opts out, or there is no handler.
  once :
      (is_unauthorized (attempt t path opts w).0 ≡ false)
        ⊎ ((opts.skip_auth_retry ≡ true) ⊎ (t.has_handler (attempt t path opts w).1 ≡ false))
      → Exchange t on_unauthorized path opts w (attempt t path opts w).0 (attempt t path opts w).1
  -- The handler declines: the first 401 is thrown.
  declined :
      is_unauthorized (attempt t path opts w).0 ≡ true
      → opts.skip_auth_retry ≡ false
      → t.has_handler (attempt t path opts w).1 ≡ true
      → (on_unauthorized (attempt t path opts w).1).0 ≡ false
      → Exchange t on_unauthorized path opts w
          (attempt t path opts w).0
          (on_unauthorized (attempt t path opts w).1).1
  -- The handler agrees: the same call is made once more, and its answer stands.
  replayed :
      is_unauthorized (attempt t path opts w).0 ≡ true
      → opts.skip_auth_retry ≡ false
      → t.has_handler (attempt t path opts w).1 ≡ true
      → (on_unauthorized (attempt t path opts w).1).0 ≡ true
      → Exchange t on_unauthorized path opts w
          (attempt t path opts (on_unauthorized (attempt t path opts w).1).1).0
          (attempt t path opts (on_unauthorized (attempt t path opts w).1).1).1

module _ {W : Type 0} (t : Transport W) (on_unauthorized : W → Bool × W) (path : String)
    (opts : ApiFetchOptions) (w : W) where
  wants_parts :
      (o : Outcome) (v : W)
      → wants_refresh t false o opts v ≡ true
      → (is_unauthorized o ≡ true) × (opts.skip_auth_retry ≡ false) × (t.has_handler v ≡ true)
  wants_parts o v h = (ground arith, ground arith, ground arith)

  one_false :
      (a b c : Bool)
      → (a && (true && (not b && c))) ≡ false
      → (a ≡ false) ⊎ ((b ≡ true) ⊎ (c ≡ false))
  one_false false b c h = inl refl
  one_false true true c h = inr (inl refl)
  one_false true false c h = inr (inr h)

  no_wish :
      (o : Outcome) (v : W)
      → wants_refresh t false o opts v ≡ false
      → (is_unauthorized o ≡ false) ⊎ ((opts.skip_auth_retry ≡ true) ⊎ (t.has_handler v ≡ false))
  no_wish o v h = one_false (is_unauthorized o) opts.skip_auth_retry (t.has_handler v) h

  abbrev first : Outcome × W
  first = attempt t path opts w

  abbrev handled : Bool × W
  handled = on_unauthorized first.1

  branches :
      (wants : Bool)
      → wants_refresh t false first.0 opts first.1 ≡ wants
      → (agrees : Bool) → handled.0 ≡ agrees
      → Exchange t on_unauthorized path opts w
          (if wants then retry_if t agrees first.0 path opts handled.1 else first).0
          (if wants then retry_if t agrees first.0 path opts handled.1 else first).1
  branches false e agrees k = once (no_wish first.0 first.1 e)
  branches true e false k = let p = wants_parts first.0 first.1 e in declined p.0 p.1 p.2 k
  branches true e true k = let p = wants_parts first.0 first.1 e in replayed p.0 p.1 p.2 k

  pub perform_fetch-Exchange :
      Exchange t on_unauthorized path opts w
        (perform_fetch t on_unauthorized path opts false w).0
        (perform_fetch t on_unauthorized path opts false w).1
  unfolding perform_fetch
  perform_fetch-Exchange = branches (wants_refresh t false first.0 opts first.1) refl handled.0 refl

  -- A replay never asks the handler.
  pub perform_fetch_replay :
      perform_fetch t on_unauthorized path opts true w ≡ attempt t path opts w
  unfolding perform_fetch
  perform_fetch_replay = ground arith

  -- A call that opts out never asks the handler.
  pub perform_fetch_opt_out :
      opts.skip_auth_retry ≡ true
      → perform_fetch t on_unauthorized path opts false w ≡ attempt t path opts w
  unfolding perform_fetch
  perform_fetch_opt_out h = ground arith
