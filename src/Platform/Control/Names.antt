-- ===== src/Platform/Control/Names.antt =====
-- Physical names (`generate_physical_identifiers` of backend/app/services/orchestrator.py) and the
-- check on identifiers (backend/app/services/sql_identifiers.py). A text is the list of its code
-- points; the random suffix is an argument.
use eminidatabase.Base.{
  ℕ, ◌≤◌, ◌≡◌, refl, Bool, true, false, Option, none, some, List, [], ◌∷◌, ◌++◌, ◌==◌, ◌&&◌, ◌||◌,
  leb, length, if◌then◌else◌, arith,
}

-- `PHYSICAL_NAME_PREFIX`, "db_".
abbrev pub physical_name_prefix : List ℕ
physical_name_prefix = b'd' ∷ b'b' ∷ b'_' ∷ []

-- `ROLE_NAME_PREFIX`, "u_".
abbrev pub role_name_prefix : List ℕ
role_name_prefix = b'u' ∷ b'_' ∷ []

-- The database's name and its role's.
unfoldable pub generate_physical_identifiers : (suffix : List ℕ) → List ℕ × List ℕ
generate_physical_identifiers suffix = (physical_name_prefix ++ suffix, role_name_prefix ++ suffix)

abbrev pub strip : (prefix text : List ℕ) → Option (List ℕ)
strip [] text = some text
strip (_ ∷ _) [] = none
strip (a ∷ prefix) (b ∷ text) = if a == b then strip prefix text else none

-- `str.removeprefix`
abbrev pub removeprefix : (prefix text : List ℕ) → List ℕ
removeprefix prefix text = elim (strip prefix text) [ none ↦ text | some rest ↦ rest ]

-- `f"{ROLE_NAME_PREFIX}{database.physical_name.removeprefix(PHYSICAL_NAME_PREFIX)}"`
unfoldable pub role_name : (physical_name : List ℕ) → List ℕ
role_name physical_name = role_name_prefix ++ removeprefix physical_name_prefix physical_name

abbrev pub is_lower : ℕ → Bool
is_lower c = leb b'a' c && leb c b'z'

abbrev pub is_word : ℕ → Bool
is_word c = is_lower c || (leb b'0' c && leb c b'9') || c == b'_'

abbrev pub all_word : List ℕ → Bool
all_word [] = true
all_word (c ∷ cs) = is_word c && all_word cs

-- `^[a-z][a-z0-9_]{2,62}$`. Python's `$` also matches before a newline at the end.
abbrev pub without_newline : List ℕ → List ℕ
without_newline [] = []
without_newline (c ∷ []) = if c == 10 then [] else c ∷ []
without_newline (c ∷ d ∷ cs) = c ∷ without_newline (d ∷ cs)

abbrev pub matches : List ℕ → Bool
matches [] = false
matches (c ∷ cs) = is_lower c && all_word cs && leb 2 (length cs) && leb (length cs) 62

unfoldable pub is_valid_identifier : List ℕ → Bool
is_valid_identifier name = matches name || matches (without_newline name)

-- A hexadecimal digit of `uuid.hex`.
abbrev pub is_hex : ℕ → Bool
is_hex c = (leb b'0' c && leb c b'9') || (leb b'a' c && leb c b'f')

abbrev pub all_hex : List ℕ → Bool
all_hex [] = true
all_hex (c ∷ cs) = is_hex c && all_hex cs

all_hex-word : (cs : List ℕ) → all_hex cs ≡ true → all_word cs ≡ true
all_hex-word [] h = refl
all_hex-word (c ∷ cs) h = ground (arith, all_hex-word cs)

-- A suffix of hexadecimal digits, short enough for PostgreSQL's 63 characters, gives a database and
-- a role whose names both pass the check on identifiers; and the role that a handler derives from
-- the database's name is the one that was generated with it.
pub generate_physical_identifiers-role_name :
    (suffix : List ℕ)
    → all_hex suffix ≡ true
    → 1 ≤ length suffix
    → length suffix ≤ 60
    → let (database, role) = generate_physical_identifiers suffix in
      (is_valid_identifier database ≡ true)
      × (is_valid_identifier role ≡ true)
      × (role_name database ≡ role)
unfolding generate_physical_identifiers is_valid_identifier role_name
generate_physical_identifiers-role_name suffix h few many =
    (ground (arith, all_hex-word suffix), ground (arith, all_hex-word suffix), refl)
