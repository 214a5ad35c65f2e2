-- ===== src/Maps/Print.antt =====
-- The lines of /proc/self/maps, in the format of proc(5): two addresses of at least eight digits,
-- four letters, and the rest with the name of the file.
use vpoline.Common.{ℕ, suc, ◌^◌, ◌≤◌, ◌<◌, Bool, ltb, if◌then◌else◌, List, [], ◌∷◌, ◌++◌, length}
use vpoline.Text.{Bytes}
use vpoline.Text.Hex.{hex}
use vpoline.Text.Tokens.{Avoids}

pub record Mapping : Type 0 where
  pub from_address : ℕ
  pub to_address : ℕ
  pub readable : Bool
  pub writable : Bool
  pub executable : Bool
  pub shared : Bool
  pub rest : Bytes

-- What a mapping of user space satisfies, with a line that fits the buffer of 4096 bytes.
pub record IsMapping (m : Mapping) : Type 0 where
  pub from_small : m.from_address < 2 ^ 63
  pub to_small : m.to_address < 2 ^ 63
  pub ordered : m.from_address < m.to_address
  pub one_line : Avoids b'\n' m.rest
  pub short : length m.rest ≤ 4000

-- The digits of an address behind the first two.
abbrev pub more_digits : ℕ → ℕ
more_digits n =
    if ltb n (16 ^ 8)
    then 6
    else if ltb n (16 ^ 9)
    then 7
    else if ltb n (16 ^ 10)
    then 8
    else if ltb n (16 ^ 11)
    then 9
    else if ltb n (16 ^ 12)
    then 10
    else if ltb n (16 ^ 13)
    then 11
    else if ltb n (16 ^ 14)
    then 12
    else if ltb n (16 ^ 15)
    then 13
    else 14

unfoldable pub print_address : ℕ → Bytes
print_address n = hex (suc (suc (more_digits n))) n

abbrev pub print_perms : (r w x s : Bool) → Bytes
print_perms r w x s =
    (if r then b'r' else b'-')
    ∷ (if w then b'w' else b'-')
    ∷ (if x then b'x' else b'-')
    ∷ (if s then b's' else b'p')
    ∷ []

-- The fields of a line, before a text.
abbrev pub print_before : Mapping → Bytes → Bytes
print_before m r =
    print_address m.from_address
    ++ (b'-'
        ∷ (print_address m.to_address
            ++ (b' ' ∷ (print_perms m.readable m.writable m.executable m.shared ++ (b' ' ∷ r)))))

-- A line without its newline.
unfoldable pub print_mapping : Mapping → Bytes
print_mapping m = print_before m m.rest

unfoldable pub print_file : List Mapping → Bytes
print_file [] = []
print_file (m ∷ ms) = print_mapping m ++ (b'\n' ∷ print_file ms)
