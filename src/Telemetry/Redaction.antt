-- ===== src/Telemetry/Redaction.antt =====
-- What `_sanitize` makes of the payloads in src/humanflow/telemetry/events.py.
use humanflow.Shared.{
  String, ◌≡◌, refl, Bool, true, false, some, arith, eq_iff, if◌then◌else◌, ◌==◌, nat_instance,
  string_instance, int_instance,
}
use mathlib.Core.Option
use humanflow.Telemetry.Payload.{
  Value, null, bool, int, float, str, object, list, mapping, Items, nil, cons, Fields, end, field,
  put, get, is_sensitive, redacted, sanitize, sanitize_value, sanitize_items, sanitize_fields,
}

-- No entry at any depth has a sensitive key with another value than the mark of redaction, and no
-- value is an opaque object.
unfoldable mutual
  pub IsClean : Value → Type 0
  IsClean null = Unit
  IsClean (bool b) = Unit
  IsClean (int n) = Unit
  IsClean (float n) = Unit
  IsClean (str s) = Unit
  IsClean (object s) = ⊥
  IsClean (list xs) = IsCleanItems xs
  IsClean (mapping fs) = IsCleanFields fs

  pub IsCleanItems : Items → Type 0
  IsCleanItems nil = Unit
  IsCleanItems (cons x xs) = IsClean x × IsCleanItems xs

  pub IsCleanFields : Fields → Type 0
  IsCleanFields end = Unit
  IsCleanFields (field k v fs) =
      (is_sensitive k ≡ true → v ≡ redacted) × IsClean v × IsCleanFields fs

entry-IsClean :
    (b : Bool) (v : Value)
    → IsClean v
    → (b ≡ true → (if b then redacted else v) ≡ redacted) × IsClean (if b then redacted else v)
unfolding IsClean
entry-IsClean true v h = (λ _. refl, tt)
entry-IsClean false v h = (λ e. cc, h)

mutual
  unfolding sanitize_value IsClean

  value-IsClean : (v : Value) → IsClean (sanitize_value v)
  value-IsClean null = tt
  value-IsClean (bool b) = tt
  value-IsClean (int n) = tt
  value-IsClean (float n) = tt
  value-IsClean (str s) = tt
  value-IsClean (object s) = tt
  value-IsClean (list xs) = items-IsCleanItems xs
  value-IsClean (mapping fs) = fields-IsCleanFields fs

  items-IsCleanItems : (xs : Items) → IsCleanItems (sanitize_items xs)
  items-IsCleanItems nil = tt
  items-IsCleanItems (cons x xs) = (value-IsClean x, items-IsCleanItems xs)

  fields-IsCleanFields : (fs : Fields) → IsCleanFields (sanitize_fields fs)
  fields-IsCleanFields end = tt
  fields-IsCleanFields (field k v fs) =
      let (a, b) = entry-IsClean (is_sensitive k) (sanitize_value v) (value-IsClean v) in
      (a, b, fields-IsCleanFields fs)

-- A sanitised payload is clean: at every depth the entries with a sensitive key hold the mark of
-- redaction, and no opaque object is left.
pub sanitize_fields-IsCleanFields : (fs : Fields) → IsCleanFields (sanitize_fields fs)
sanitize_fields-IsCleanFields fs = fields-IsCleanFields fs

-- Sanitising keeps the keys of a payload: each key is read as its own sanitised value.
pub get-sanitize_fields :
    (k : String) (fs : Fields) → get k (sanitize_fields fs) ≡ Option.map (sanitize k) (get k fs)
unfolding get sanitize_value sanitize
get-sanitize_fields k end = refl
get-sanitize_fields k (field j v fs) = ground (arith, eq_iff j k, get-sanitize_fields k fs)

-- A key that was put is read back, and the other keys are as they were.
pub get-put :
    (k j : String) (v : Value) (fs : Fields)
    → get j (put k v fs) ≡ (if k == j then some v else get j fs)
unfolding get put
get-put k j v end = refl
get-put k j v (field i w fs) = ground (arith, eq_iff k j, eq_iff i k, eq_iff i j, get-put k j v fs)
