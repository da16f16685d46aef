-- ===== src/Validate/InstanceSize.antt =====
-- instance_size.go, with the functions of `strings` and `strconv` that it calls. In Go the index of
-- an empty text panics, so that is a result here.
use Prim.Native.Char.{Char, code, len_utf8}
use mongodb_atlas_kubernetes.Base.{
  ℕ, ◌+◌, ◌*◌, ◌-◌, String, Bool, true, false, not, List, [], ◌∷◌, if◌then◌else◌, leb, ltb, nat_eq,
  ◌&&◌, str_eq, concat,
}
use mongodb_atlas_kubernetes.Base.Int.{ℤ, pos, negsuc, sub_ℕ, ltb_ℤ}
use mongodb_atlas_kubernetes.Base.Errors.{GoError, plain, error_text, Answer, ok, err}

-- What a Go function leaves that may panic.
pub data Run {ℓ} (A : Type ℓ) : Type ℓ where
  returns : A → Run A
  panics : Run A

pub record InstanceSize : Type 0 where
  pub family : String
  pub size : ℤ
  pub is_nvme : Bool

abbrev pub same_int : ℤ → ℤ → Bool
same_int (pos a) (pos b) = nat_eq a b
same_int (negsuc a) (negsuc b) = nat_eq a b
same_int (pos a) (negsuc b) = false
same_int (negsuc a) (pos b) = false

abbrev pub same_flag : Bool → Bool → Bool
same_flag true b = b
same_flag false b = not b

unfoldable pub compare_instance_sizes : InstanceSize → InstanceSize → ℤ
compare_instance_sizes a b =
    if not (str_eq a.family b.family)
    then (if str_eq a.family "M" then negsuc 0 else pos 1)
    else if not (same_int a.size b.size)
    then (if ltb_ℤ a.size b.size then negsuc 0 else pos 1)
    else if not (same_flag a.is_nvme b.is_nvme)
    then (if not a.is_nvme then negsuc 0 else pos 1)
    else pos 0

-- the outcome of the loop of strconv.ParseUint in base 10
pub data Digits : Type 0 where
  value : ℕ → Digits
  bad_syntax bad_range : Digits

abbrev pub is_digit : Char → Bool
is_digit c = leb 48 (code c) && leb (code c) 57

abbrev pub max_uint64 : ℕ
max_uint64 = 18446744073709551615

unfoldable pub parse_digits : String → ℕ → Digits
parse_digits String.[] n = value n
parse_digits (String.◌∷◌ c s) n =
    let more = 10 * n + (code c - 48) in
    let rest = parse_digits s more in
    if not (is_digit c) then bad_syntax else if ltb max_uint64 more then bad_range else rest

abbrev pub bad_number : String → String → GoError
bad_number text why = plain (concat "strconv.Atoi: parsing \"" (concat text (concat "\": " why)))

-- The number of the digits, if it is an int64 with its sign.
abbrev pub signed : String → Bool → Digits → Answer ℤ
signed text negative bad_syntax = err (bad_number text "invalid syntax")
signed text negative bad_range = err (bad_number text "value out of range")
signed text negative (value n) =
    if negative
    then (if ltb 9223372036854775808 n
        then err (bad_number text "value out of range")
        else ok (sub_ℕ 0 n))
    else (if leb 9223372036854775808 n
        then err (bad_number text "value out of range")
        else ok (pos n))

-- A number has at least one digit.
abbrev pub some_digits : String → Digits
some_digits String.[] = bad_syntax
some_digits (String.◌∷◌ c s) = parse_digits (String.◌∷◌ c s) 0

-- strconv.Atoi
unfoldable pub atoi : String → Answer ℤ
unfolding parse_digits
atoi String.[] = err (bad_number "" "invalid syntax")
atoi (String.◌∷◌ c s) =
    let text = String.◌∷◌ c s in
    if nat_eq (code c) 45
    then signed text true (some_digits s)
    else if nat_eq (code c) 43
    then signed text false (some_digits s)
    else signed text false (some_digits text)

abbrev pub prepend : Char → List String → List String
prepend c [] = String.◌∷◌ c String.[] ∷ []
prepend c (p ∷ ps) = String.◌∷◌ c p ∷ ps

-- `strings.Split(text, "_")`, which never answers an empty list
unfoldable pub split_underscore : String → List String
split_underscore String.[] = "" ∷ []
split_underscore (String.◌∷◌ c s) =
    let rest = split_underscore s in if nat_eq (code c) 95 then "" ∷ rest else prepend c rest

-- `len(text) < 2`, in bytes
abbrev pub is_short : String → Bool
is_short String.[] = true
is_short (String.◌∷◌ c String.[]) = ltb (len_utf8 c) 2
is_short (String.◌∷◌ c (String.◌∷◌ d s)) = false

abbrev pub sized : String → Bool → Answer ℤ → Answer InstanceSize
sized family nvme (err e) = err (plain (concat "instance size is invalid. " (error_text e)))
sized family nvme (ok n) = ok (record { family = family; size = n; is_nvme = nvme })

abbrev pub wrong_family : GoError
wrong_family = plain "instance size is invalid. instance family should be M or R"

abbrev pub of_first : String → Bool → Run (Answer InstanceSize)
of_first String.[] nvme = panics
of_first (String.◌∷◌ c s) nvme =
    if nat_eq (code c) 77
    then returns (sized "M" nvme (atoi s))
    else if nat_eq (code c) 82
    then returns (sized "R" nvme (atoi s))
    else returns (err wrong_family)

-- `len(pieces) == 2 && pieces[1] == "NVME"`
abbrev pub is_nvme_suffix : List String → Bool
is_nvme_suffix (p ∷ []) = str_eq p "NVME"
is_nvme_suffix _ = false

abbrev pub of_pieces : List String → Run (Answer InstanceSize)
of_pieces [] = panics
of_pieces (p ∷ ps) = of_first p (is_nvme_suffix ps)

unfoldable pub new_from_instance_size_name : String → Run (Answer InstanceSize)
unfolding atoi split_underscore
new_from_instance_size_name name =
    if is_short name
    then returns (err (plain "instance size is invalid"))
    else of_pieces (split_underscore name)
