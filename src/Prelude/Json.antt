-- ===== src/Prelude/Json.antt =====
-- JSON values as `encoding/json` decodes them into `any`, an object as the list of its fields. A
-- number is a float64: not a number, an infinity, or m * 2^e / 2^1074 with a sign, where the true
-- flag stands for minus.
use codex_auth_broker.Prelude.Int.{negsuc, pos, ℤ}
use codex_auth_broker.Prelude.Tests.{if◌then◌else◌, leb, ◌==◌}
use codex_auth_broker.Prelude.Text.{Bytes}
use codex_auth_broker.Prelude.{Bool, false, not, ℕ, ◌&&◌, ◌*◌, ◌-◌, ◌/◌, ◌^◌, ◌||◌}

pub data Float64 : Type 0 where
  nan : Float64
  inf : Bool → Float64
  fin : Bool → ℕ → ℕ → Float64

-- f <= 0
unfoldable pub nonpositive : Float64 → Bool
nonpositive nan = false
nonpositive (inf minus) = minus
nonpositive (fin minus m e) = minus || m == 0

-- f >= n
unfoldable pub at_least : ℕ → Float64 → Bool
at_least n nan = false
at_least n (inf minus) = not minus
at_least n (fin minus m e) = if minus then n == 0 && m == 0 else leb (n * 2 ^ 1074) (m * 2 ^ e)

abbrev pub min_int_64 : ℤ
min_int_64 = negsuc (2 ^ 63 - 1)

-- int64(f), which truncates towards zero. What does not fit gives the least integer, as on amd64.
unfoldable pub to_int_64 : Float64 → ℤ
to_int_64 nan = min_int_64
to_int_64 (inf minus) = min_int_64
to_int_64 (fin minus m e) =
    let whole = m * 2 ^ e / 2 ^ 1074 in
    if leb (2 ^ 63) whole
    then min_int_64
    else if minus && not (whole == 0)
    then negsuc (whole - 1)
    else pos whole

mutual
  pub data Value : Type 0 where
    null : Value
    bool : Bool → Value
    num : Float64 → Value
    str : Bytes → Value
    arr : Items → Value
    obj : Fields → Value

  pub data Items : Type 0 where
    nil : Items
    cons : Value → Items → Items

  pub data Fields : Type 0 where
    end : Fields
    field : Bytes → Value → Fields → Fields

-- A predicate on every field of every object in a value, at any depth.
abbrev mutual
  pub AllFields : (Bytes → Value → Type 0) → Value → Type 0
  AllFields P null = Unit
  AllFields P (bool b) = Unit
  AllFields P (num n) = Unit
  AllFields P (str s) = Unit
  AllFields P (arr xs) = AllFieldsOf P xs
  AllFields P (obj fs) = AllFieldsIn P fs

  pub AllFieldsOf : (Bytes → Value → Type 0) → Items → Type 0
  AllFieldsOf P nil = Unit
  AllFieldsOf P (cons v xs) = AllFields P v × AllFieldsOf P xs

  pub AllFieldsIn : (Bytes → Value → Type 0) → Fields → Type 0
  AllFieldsIn P end = Unit
  AllFieldsIn P (field k v fs) = P k v × AllFields P v × AllFieldsIn P fs
