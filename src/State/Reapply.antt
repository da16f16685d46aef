-- ===== src/State/Reapply.antt =====
-- pkg/controller/state/reapply.go. Durations and times are whole nanoseconds without a bound; the
-- parsers of package time and strconv are parameters.
use Prim.Native.Nat.{◌/◌}
use mongodb_atlas_kubernetes.Base.{
  ℕ, String, Bool, false, not, Option, none, some, if◌then◌else◌, lookup,
}
use mongodb_atlas_kubernetes.Base.Int.{ℤ, pos, ◌+ℤ◌, ◌-ℤ◌, scale, ltb_ℤ}
use mongodb_atlas_kubernetes.Base.Errors.{GoError, plain, wrap, Answer, ok, err}
use mongodb_atlas_kubernetes.Base.Effect.{Effect, pure, ◌>>=◌}
use mongodb_atlas_kubernetes.State.Kube.{Object}
use mongodb_atlas_kubernetes.State.Sim.{Client, Sim, read_clock, send_timestamp}

-- time.ParseDuration, and strconv.ParseInt in base 10
pub record Parsers : Type 0 where
  pub parse_duration : String → Answer ℤ
  pub parse_int : String → Answer ℤ

abbrev pub period_annotation : String
period_annotation = "mongodb.com/reapply-period"

abbrev pub timestamp_annotation : String
timestamp_annotation = "mongodb.internal.com/reapply-timestamp"

-- 60 * time.Second
abbrev pub minimum_period : ℤ
minimum_period = pos 60000000000

-- `time.UnixMilli`, in nanoseconds
abbrev pub unix_milli : ℤ → ℤ
unix_milli ms = scale 1000000 ms

abbrev pub checked_period : Answer ℤ → Answer (Option ℤ)
checked_period (err e) = err (wrap "failed to parse reapply period" e)
checked_period (ok period) =
    if ltb_ℤ period minimum_period
    then err (plain "reapply period is invalid: must be greater than 60m")
    else ok (some period)

abbrev pub read_timestamp : Answer ℤ → Answer (Option ℤ)
read_timestamp (err e) = err (wrap "failed to parse reapply timestamp" e)
read_timestamp (ok ms) = ok (some (unix_milli ms))

-- `diff <= 0`, where `diff` is what is left until the timestamp and the period are over
abbrev pub is_due : ℤ → ℤ → ℕ → Bool
is_due timestamp period now = not (ltb_ℤ (pos 0) (timestamp +ℤ period -ℤ pos now))

abbrev pub due_by_period : ℤ → Answer (Option ℤ) → ℕ → Answer Bool
due_by_period timestamp (err e) now = err e
due_by_period timestamp (ok none) now = ok false
due_by_period timestamp (ok (some period)) now = ok (is_due timestamp period now)

abbrev pub due_by_timestamp : Answer (Option ℤ) → Answer (Option ℤ) → ℕ → Answer Bool
due_by_timestamp (err e) period now = err e
due_by_timestamp (ok none) period now = ok false
due_by_timestamp (ok (some timestamp)) period now = due_by_period timestamp period now

abbrev pub after_timestamp_patch : ℤ → Option GoError → Answer ℤ
after_timestamp_patch period none = ok period
after_timestamp_patch period (some e) = err (wrap "failed to patch object" e)

module _ {W : Type 0} (client : Client W) where
  abbrev pub send_now : ℤ → ℕ → Effect (Sim W) (Answer ℤ)
  send_now period now = do
    e ← send_timestamp client (now / 1000000)
    pure (after_timestamp_patch period e)

  abbrev pub renew : ℤ → Answer (Option ℤ) → Effect (Sim W) (Answer ℤ)
  renew period (err e) = pure (err e)
  renew period (ok none) = do now ← read_clock client; send_now period now
  renew period (ok (some timestamp)) = do
    now ← read_clock client
    let diff = timestamp +ℤ period -ℤ pos now
    if ltb_ℤ (pos 0) diff then pure (ok diff) else send_now period now

  abbrev pub renew_by_period : Answer (Option ℤ) → Answer (Option ℤ) → Effect (Sim W) (Answer ℤ)
  renew_by_period (err e) timestamp = pure (err e)
  renew_by_period (ok none) timestamp = pure (ok (pos 0))
  renew_by_period (ok (some period)) timestamp = renew period timestamp

module _ (p : Parsers) where
  -- `ok none` is (0, false, nil)
  unfoldable pub reapply_period : Object → Answer (Option ℤ)
  reapply_period obj = elim (lookup period_annotation obj.annotations) [
    | none ↦ ok none
    | some text ↦ checked_period (p.parse_duration text)
  ]

  unfoldable pub reapply_timestamp : Object → Answer (Option ℤ)
  reapply_timestamp obj = elim (lookup timestamp_annotation obj.annotations) [
    | none ↦ ok none
    | some text ↦ read_timestamp (p.parse_int text)
  ]

  unfoldable pub should_reapply : Object → ℕ → Answer Bool
  unfolding reapply_period reapply_timestamp
  should_reapply obj now = due_by_timestamp (reapply_timestamp obj) (reapply_period obj) now

  module _ {W : Type 0} (client : Client W) where
    -- PatchReapplyTimestamp: how long to wait, and the patch when that time is over
    unfoldable pub patch_reapply_timestamp : Effect (Sim W) (Answer ℤ)
    unfolding reapply_period reapply_timestamp send_timestamp read_clock
    patch_reapply_timestamp s =
        renew_by_period client (reapply_period s.object) (reapply_timestamp s.object) s
