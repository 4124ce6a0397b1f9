-- ===== src/Go.antt =====
-- What the Go language and its standard library give to the program: run-time panics, the dynamic
-- values of `interface{}` with their comparison, UTF-8, and `strings.EqualFold`.
use Prim.Native.Char.{Char, code}
use Prim.Native.String
use cosmoguard.Prelude.{
  ℕ, ◌+◌, ◌/◌, ◌%◌, ◌^◌, ◌≡◌, refl, Bool, true, false, ◌&&◌, ◌||◌, not, List, [], ◌∷◌, ◌++◌, String,
  Option, none, some, zero, suc, if◌then◌else◌, ltb, ◌==◌, beq_refl, nat_eq, string_eq, ◌-◌,
}

-- The run-time panics that the code can reach.
pub data Fault : Type 0 where
  index_out_of_range uncomparable nil_dereference nil_map_write bad_type_assertion : Fault
  divide_by_zero bad_pattern makeslice_len_out_of_range repeated_read : Fault

pub data Result {ℓ} (V : Type ℓ) : Type ℓ where
  panic : Fault → Result V
  ok : V → Result V

-- A panic ends the calls that follow.
infixl 5 ◌>>=◌
abbrev pub ◌>>=◌ {ℓ κ} : {V : Type ℓ} {W : Type κ} (m : Result V) (rest : V → Result W) → Result W
panic fault >>= rest = panic fault
ok v >>= rest = rest v

pub >>=-eq-ok {ℓ κ} :
    {V : Type ℓ} {W : Type κ} (m : Result V) (rest : V → Result W) {w : W}
    → (m >>= rest) ≡ ok w
    → (v : V) × (m ≡ ok v) × (rest v ≡ ok w)
>>=-eq-ok (panic fault) rest h = cc
>>=-eq-ok (ok v) rest h = (v, refl, h)

pub ok-injective {ℓ} : {A : Type ℓ} {a b : A} → ok a ≡ ok b → a ≡ b
ok-injective e = cc

-- The values of `interface{}` that JSON and YAML decoding and the code itself make. A `float64` is
-- its IEEE 754 bit pattern, an `int` its 64-bit pattern.
mutual
  pub data Value : Type 0 where
    nil : Value
    bool : Bool → Value
    int float64 : ℕ → Value
    str : String → Value
    slice : Values → Value
    dict : Fields → Value

  pub data Values : Type 0 where
    empty : Values
    item : Value → Values → Values

  pub data Fields : Type 0 where
    end : Fields
    field : String → Value → Fields → Fields

-- `len(m) > 0` of a map, and `len(s)` of a slice.
abbrev pub has_fields : Fields → Bool
has_fields end = false
has_fields (field _ _ _) = true

abbrev pub has_values : Values → Bool
has_values empty = false
has_values (item _ _) = true

-- `m[key]` with its `ok`.
unfoldable pub get : String → Fields → Option Value
get k end = none
get k (field j v fs) = if j == k then some v else get k fs

-- `m[key]` without it: the zero value of `interface{}` on a missing key.
abbrev pub get_or_nil : String → Fields → Value
get_or_nil k fs = elim (get k fs) [ none ↦ nil | some v ↦ v ]

-- `s[i]`.
unfoldable pub index : Values → ℕ → Result Value
index empty i = panic index_out_of_range
index (item v vs) zero = ok v
index (item v vs) (suc i) = index vs i

-- `v.(string)` with its `ok`.
abbrev pub as_string : Value → Option String
as_string (str s) = some s
as_string _ = none

-- `==` on `float64`: a NaN equals nothing, and the two zeros are equal.
magnitude : ℕ → ℕ
magnitude x = x % 2 ^ 63

unfoldable pub float_eq : ℕ → ℕ → Bool
unfolding magnitude
float_eq a b =
    (not (ltb 0x7ff0000000000000 (magnitude a)) && not (ltb 0x7ff0000000000000 (magnitude b)))
    && (a == b || (magnitude a == 0 && magnitude b == 0))

-- `<` on `int`, by the 64-bit patterns.
unfoldable pub int_lt : ℕ → ℕ → Bool
int_lt a b = ltb ((a + 2 ^ 63) % 2 ^ 64) ((b + 2 ^ 63) % 2 ^ 64)

bool_eq : Bool → Bool → Bool
bool_eq true b = b
bool_eq false b = not b

-- `v != w` negated, on `interface{}`: values of different dynamic types differ, and comparing two
-- maps or two slices panics.
unfoldable pub iface_eq : Value → Value → Result Bool
unfolding bool_eq
iface_eq nil nil = ok true
iface_eq (bool a) (bool b) = ok (bool_eq a b)
iface_eq (int a) (int b) = ok (a == b)
iface_eq (float64 a) (float64 b) = ok (float_eq a b)
iface_eq (str a) (str b) = ok (a == b)
iface_eq (slice a) (slice b) = panic uncomparable
iface_eq (dict a) (dict b) = panic uncomparable
iface_eq _ _ = ok false

-- `strings.EqualFold`, where one of the texts is ASCII: the case of letters is ignored, and of the
-- other characters the Kelvin sign folds with k and the long s with s.
fold_rune : ℕ → ℕ
fold_rune c =
    if not (ltb c 65) && ltb c 91
    then c + 32
    else if c == 0x212a
    then 107
    else if c == 0x17f
    then 115
    else c

unfoldable pub equal_fold : String → String → Bool
unfolding fold_rune
equal_fold String.[] String.[] = true
equal_fold (String.◌∷◌ c s) (String.◌∷◌ d t) =
    fold_rune (code c) == fold_rune (code d) && equal_fold s t
equal_fold _ _ = false

pub equal_fold_refl : (s : String) → equal_fold s s ≡ true
unfolding equal_fold
equal_fold_refl String.[] = refl
equal_fold_refl (String.◌∷◌ c s) = rw (beq_refl (fold_rune (code c))) (equal_fold_refl s)

digit : ℕ → Char
digit zero = "0"
digit (suc zero) = "1"
digit (suc (suc zero)) = "2"
digit (suc (suc (suc zero))) = "3"
digit (suc (suc (suc (suc zero)))) = "4"
digit (suc (suc (suc (suc (suc zero))))) = "5"
digit (suc (suc (suc (suc (suc (suc zero)))))) = "6"
digit (suc (suc (suc (suc (suc (suc (suc zero))))))) = "7"
digit (suc (suc (suc (suc (suc (suc (suc (suc zero)))))))) = "8"
digit (suc (suc (suc (suc (suc (suc (suc (suc (suc _))))))))) = "9"

-- The digits of a number, highest first; one round of fuel for each digit.
decimal_from : ℕ → ℕ → String → String
decimal_from zero n acc = acc
decimal_from (suc f) n acc =
    let longer = String.◌∷◌ (digit (n % 10)) acc in
    let rest = decimal_from f (n / 10) longer in if ltb n 10 then longer else rest

-- `strconv.Itoa`, of a 64-bit pattern; twenty digits are enough.
unfoldable pub itoa : ℕ → String
unfolding decimal_from digit
itoa n =
    if ltb n (2 ^ 63)
    then decimal_from 20 n ""
    else String.◌++◌ "-" (decimal_from 20 (2 ^ 64 - n) "")

itoa_test : (itoa 0 ≡ "0") × (itoa 1204 ≡ "1204") × (itoa (2 ^ 64 - 12) ≡ "-12")
unfolding itoa
itoa_test = (refl, refl, refl)

equal_fold_test : (equal_fold "Get" "GET" ≡ true) × (equal_fold "GET" "GE" ≡ false)
unfolding equal_fold
equal_fold_test = (refl, refl)

-- `[]byte(s)`: the UTF-8 encoding.
encode_rune : ℕ → List ℕ
encode_rune c =
    if ltb c 0x80
    then c ∷ []
    else if ltb c 0x800
    then (192 + c / 64) ∷ (128 + c % 64) ∷ []
    else if ltb c 0x10000
    then (224 + c / 4096) ∷ (128 + c / 64 % 64) ∷ (128 + c % 64) ∷ []
    else (240 + c / 262144) ∷ (128 + c / 4096 % 64) ∷ (128 + c / 64 % 64) ∷ (128 + c % 64) ∷ []

abbrev pub Bytes : Type 0
Bytes = List ℕ

unfoldable pub utf8 : String → Bytes
unfolding encode_rune
utf8 String.[] = []
utf8 (String.◌∷◌ c s) = encode_rune (code c) ++ utf8 s
