-- ===== src/Config/Env.antt =====
-- pkg/config/config.go: the readers of environment variables, with strings.Split, strings.SplitN,
-- strings.TrimSpace and strconv.ParseBool of Go's standard library. The parsers of durations and of
-- floating-point numbers are parameters.
pub mod Lists
use mathlib.Core.List.{reverse}
use content_storage_server.Prelude.{
  ℕ, zero, suc, ◌+◌, Bool, true, false, ◌||◌, Option, none, some, List, [], ◌∷◌, ◌++◌, map, Bytes,
  bytes, str_eq, is_empty, is_nil, has_prefix, length, drop, ◌==◌, if◌then◌else◌,
}
use content_storage_server.Prelude.Int64.{Int64}
use content_storage_server.Prelude.Assoc
use content_storage_server.Prelude.Assoc.{Assoc}
use content_storage_server.Handlers.Validation.Atoi.{atoi}

-- os.LookupEnv, after the .env file was loaded.
abbrev pub Environment : Type 0
Environment = Bytes → Option Bytes

-- time.ParseDuration and strconv.ParseFloat; `ratio n d` is the constant n / d, `not_positive x` is x <= 0,
-- and `is_positive x` is x > 0.
pub record Parsers (F : Type 0) : Type 0 where
  pub parse_duration : Bytes → Option Int64
  pub parse_float : Bytes → Option F
  pub ratio : ℕ → ℕ → F
  pub not_positive : F → Bool
  pub is_positive : F → Bool

-- The encodings of the characters that unicode.IsSpace accepts.
abbrev spaces : List Bytes
spaces =
    (9 ∷ [])
    ∷ (10 ∷ [])
    ∷ (11 ∷ [])
    ∷ (12 ∷ [])
    ∷ (13 ∷ [])
    ∷ (32 ∷ [])
    ∷ (0xc2 ∷ 0x85 ∷ [])
    ∷ (0xc2 ∷ 0xa0 ∷ [])
    ∷ (0xe1 ∷ 0x9a ∷ 0x80 ∷ [])
    ∷ (0xe2 ∷ 0x80 ∷ 0x80 ∷ [])
    ∷ (0xe2 ∷ 0x80 ∷ 0x81 ∷ [])
    ∷ (0xe2 ∷ 0x80 ∷ 0x82 ∷ [])
    ∷ (0xe2 ∷ 0x80 ∷ 0x83 ∷ [])
    ∷ (0xe2 ∷ 0x80 ∷ 0x84 ∷ [])
    ∷ (0xe2 ∷ 0x80 ∷ 0x85 ∷ [])
    ∷ (0xe2 ∷ 0x80 ∷ 0x86 ∷ [])
    ∷ (0xe2 ∷ 0x80 ∷ 0x87 ∷ [])
    ∷ (0xe2 ∷ 0x80 ∷ 0x88 ∷ [])
    ∷ (0xe2 ∷ 0x80 ∷ 0x89 ∷ [])
    ∷ (0xe2 ∷ 0x80 ∷ 0x8a ∷ [])
    ∷ (0xe2 ∷ 0x80 ∷ 0xa8 ∷ [])
    ∷ (0xe2 ∷ 0x80 ∷ 0xa9 ∷ [])
    ∷ (0xe2 ∷ 0x80 ∷ 0xaf ∷ [])
    ∷ (0xe2 ∷ 0x81 ∷ 0x9f ∷ [])
    ∷ (0xe3 ∷ 0x80 ∷ 0x80 ∷ [])
    ∷ []

-- What follows one of the texts, if the string begins with it.
unfoldable after_one : List Bytes → Bytes → Option Bytes
after_one [] s = none
after_one (p ∷ ps) s =
    let rest = after_one ps s in if has_prefix s p then some (drop (length p) s) else rest

-- Each round shortens the string, so that its length is enough fuel.
unfoldable trim_rounds : ℕ → List Bytes → Bytes → Bytes
unfolding after_one
trim_rounds zero ps s = s
trim_rounds (suc n) ps s = elim (after_one ps s) [ none ↦ s | some rest ↦ trim_rounds n ps rest ]

-- strings.TrimSpace
unfoldable pub trim_space : Bytes → Bytes
unfolding trim_rounds
trim_space s =
    let t = trim_rounds (length s) spaces s in
    reverse (trim_rounds (length t) (map reverse spaces) (reverse t))

-- strings.Split at one byte, which is never the empty list.
unfoldable pub cut_first : ℕ → Bytes → Bytes × Option Bytes
cut_first sep [] = ([], none)
cut_first sep (c ∷ s) =
    let (head, rest) = cut_first sep s in if c == sep then ([], some s) else (c ∷ head, rest)

-- A byte put at the front of the first part.
abbrev pub onto_first : ℕ → List Bytes → List Bytes
onto_first c [] = (c ∷ []) ∷ []
onto_first c (p ∷ ps) = (c ∷ p) ∷ ps

unfoldable pub split : ℕ → Bytes → List Bytes
split sep [] = [] ∷ []
split sep (c ∷ s) = let rest = split sep s in if c == sep then [] ∷ rest else onto_first c rest

unfoldable pub env : Environment → Bytes → Bytes → Bytes
env lookup key default = elim (lookup key) [ none ↦ default | some value ↦ value ]

-- The readers whose value is parsed: the default if it is missing or does not parse.
unfoldable pub env_parsed {ℓ} : {A : Type ℓ} → (Bytes → Option A) → Environment → Bytes → A → A
env_parsed parse lookup key default = elim (lookup key) [
  | none ↦ default
  | some value ↦ (elim (parse value) [ none ↦ default | some x ↦ x ])
]

unfoldable pub env_int : Environment → Bytes → Int64 → Int64
unfolding env_parsed
env_int = env_parsed atoi

-- strconv.ParseInt to base 10 and 64 bits reads what Atoi reads.
unfoldable pub env_int64 : Environment → Bytes → Int64 → Int64
unfolding env_parsed
env_int64 = env_parsed atoi

abbrev pub one_of : List Bytes → Bytes → Bool
one_of [] s = false
one_of (t ∷ ts) s = str_eq s t || one_of ts s

-- strconv.ParseBool
unfoldable pub parse_bool : Bytes → Option Bool
parse_bool s =
    if one_of (bytes "1" ∷ bytes "t" ∷ bytes "T" ∷ bytes "TRUE" ∷ bytes "true" ∷ bytes "True" ∷ [])
      s
    then some true
    else if one_of
        (bytes "0" ∷ bytes "f" ∷ bytes "F" ∷ bytes "FALSE" ∷ bytes "false" ∷ bytes "False" ∷ []) s
    then some false
    else none

unfoldable pub env_bool : Environment → Bytes → Bool → Bool
unfolding env_parsed parse_bool
env_bool = env_parsed parse_bool

-- The parts of the loop that are not empty once they are trimmed.
unfoldable pub trimmed : List Bytes → List Bytes
trimmed [] = []
trimmed (p ∷ ps) =
    let rest = trimmed ps in let t = trim_space p in if is_empty t then rest else t ∷ rest

unfoldable pub env_string_slice : Environment → Bytes → List Bytes → List Bytes
unfolding split trimmed
env_string_slice lookup key default = elim (lookup key) [
  | none ↦ default
  | some value ↦
      if is_empty value
      then default
      else (let result = trimmed (split 44 value) in if is_nil result then default else result)
]

-- One pair of the loop: strings.SplitN at the first "=".
unfoldable pub put_pair : Assoc Bytes → Bytes → Assoc Bytes
unfolding cut_first
put_pair m pair =
    let (key, rest) = cut_first 61 (trim_space pair) in
    elim rest [
      | none ↦ m
      | some val ↦
          let k = trim_space key in if is_empty k then m else Assoc.put m k (trim_space val)
    ]

unfoldable pub put_pairs : Assoc Bytes → List Bytes → Assoc Bytes
unfolding put_pair
put_pairs m [] = m
put_pairs m (p ∷ ps) = put_pairs (put_pair m p) ps

unfoldable pub env_string_map : Environment → Bytes → Assoc Bytes → Assoc Bytes
unfolding split put_pairs
env_string_map lookup key default = elim (lookup key) [
  | none ↦ default
  | some value ↦
      if is_empty value
      then default
      else (let result = put_pairs [] (split 44 value) in if is_nil result then default else result)
]

module _ {F : Type 0} (p : Parsers F) where
  unfoldable pub env_duration : Environment → Bytes → Int64 → Int64
  unfolding env_parsed
  env_duration = env_parsed p.parse_duration

  unfoldable pub env_float64 : Environment → Bytes → F → F
  unfolding env_parsed
  env_float64 = env_parsed p.parse_float
