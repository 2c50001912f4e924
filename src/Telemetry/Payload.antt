-- ===== src/Telemetry/Payload.antt =====
-- Payload values of src/humanflow/telemetry/events.py and `_sanitize`.
-- `lower` converts ASCII and the two characters beyond it whose lower case holds an ASCII letter;
-- since a normalised key is only compared with ASCII names, the other conversions decide nothing.
use humanflow.Shared.{
  ℕ, ◌+◌, String, Bool, ◌&&◌, ◌||◌, Option, none, some, List, [], ◌∷◌, ◌++◌, map, leb,
  if◌then◌else◌, ◌==◌, nat_instance, string_instance, contains, ℤ, int_instance, any,
}
use humanflow.Shared.Text.{codes, codes_instance, ends_with}

mutual
  -- A float is its 64 bits; any other object is what `repr` gives.
  pub data Value : Type 0 where
    null : Value
    bool : Bool → Value
    int : ℤ → Value
    float : ℕ → Value
    str : String → Value
    object : String → Value
    list : Items → Value
    mapping : Fields → Value

  pub data Items : Type 0 where
    nil : Items
    cons : Value → Items → Items

  pub data Fields : Type 0 where
    end : Fields
    field : String → Value → Fields → Fields

-- `payload[key] = value`
unfoldable pub put : String → Value → Fields → Fields
put k v end = field k v end
put k v (field j w fs) = if j == k then field j v fs else field j w (put k v fs)

-- `payload.get(key)`
unfoldable pub get : String → Fields → Option Value
get k end = none
get k (field j w fs) = if j == k then some w else get k fs

lower_char : ℕ → List ℕ
lower_char c =
    if leb 65 c && leb c 90
    then (c + 32) ∷ []
    else if c == 0x212a
    then 107 ∷ []
    else if c == 0x130
    then 105 ∷ 0x307 ∷ []
    else c ∷ []

-- `.replace("-", "_")`
dash_to_underscore : ℕ → ℕ
dash_to_underscore c = if c == b'-' then b'_' else c

lower : List ℕ → List ℕ
unfolding lower_char
lower [] = []
lower (c ∷ s) = lower_char c ++ lower s

unfoldable pub normalized_key : String → List ℕ
unfolding lower dash_to_underscore
normalized_key key = map dash_to_underscore (lower (codes key))

unfoldable pub sensitive_key_names : List (List ℕ)
sensitive_key_names =
    codes "api_key"
    ∷ codes "authorization"
    ∷ codes "credential"
    ∷ codes "credentials"
    ∷ codes "password"
    ∷ codes "secret"
    ∷ codes "token"
    ∷ []

unfoldable pub sensitive_key_suffixes : List (List ℕ)
sensitive_key_suffixes =
    codes "_api_key"
    ∷ codes "_auth_token"
    ∷ codes "_credential"
    ∷ codes "_credentials"
    ∷ codes "_password"
    ∷ codes "_secret"
    ∷ codes "_access_token"
    ∷ codes "_refresh_token"
    ∷ []

unfoldable pub is_sensitive : String → Bool
unfolding normalized_key sensitive_key_names sensitive_key_suffixes
is_sensitive key =
    let name = normalized_key key in
    contains name sensitive_key_names || any (ends_with name) sensitive_key_suffixes

abbrev pub redacted : Value
redacted = str "[REDACTED]"

-- `_sanitize(value)` without a key, on values, list items and mapping entries: `key=""` is not
-- sensitive.
unfoldable mutual
  pub sanitize_value : Value → Value
  sanitize_value null = null
  sanitize_value (bool b) = bool b
  sanitize_value (int n) = int n
  sanitize_value (float n) = float n
  sanitize_value (str s) = str s
  sanitize_value (object s) = str s
  sanitize_value (list xs) = list (sanitize_items xs)
  sanitize_value (mapping fs) = mapping (sanitize_fields fs)

  pub sanitize_items : Items → Items
  sanitize_items nil = nil
  sanitize_items (cons x xs) = cons (sanitize_value x) (sanitize_items xs)

  pub sanitize_fields : Fields → Fields
  sanitize_fields end = end
  sanitize_fields (field k v fs) =
      field k (if is_sensitive k then redacted else sanitize_value v) (sanitize_fields fs)

-- `_sanitize(value, key=key)`
unfoldable pub sanitize : String → Value → Value
unfolding sanitize_value
sanitize key v = if is_sensitive key then redacted else sanitize_value v
