-- ===== src/Base/HostPort.antt =====
-- What the program uses of net.SplitHostPort, strings.ContainsAny and strconv.Atoi.
use virtual_private_node.Base.Tests.{leb, ◌==◌, if◌then◌else◌}
use virtual_private_node.Base.Lists.{take, drop}
use virtual_private_node.Base.Int.{ℤ, pos, negsuc, max_int64}
use virtual_private_node.Base.Text.{Text}
use Prim.Native.Nat.{ℕ, zero, suc, ◌+◌, ◌-◌, ◌*◌}
use mathlib.Core.Bool.{Bool, false, ◌&&◌, ◌||◌}
use mathlib.Core.Option
use mathlib.Core.Option.{Option, none, some}
use mathlib.Core.List.{[], ◌∷◌}

-- The first index of a character, and the last.
unfoldable pub index_of : ℕ → Text → Option ℕ
index_of c [] = none
index_of c (d ∷ s) = let later = Option.map suc (index_of c s) in if d == c then some 0 else later

unfoldable pub last_index_of : ℕ → Text → Option ℕ
last_index_of c [] = none
last_index_of c (d ∷ s) = elim (last_index_of c s) [
  | some i ↦ some (suc i)
  | none ↦ if d == c then some 0 else none
]

abbrev pub has : ℕ → Text → Bool
has c [] = false
has c (d ∷ s) = (d == c) || has c s

-- The brackets around a host must be the only ones; `j` and `k` are where a `[` and a `]` may no
-- longer stand.
abbrev pub unbracketed : Text → ℕ → ℕ → Text → ℕ → Option (Text × Text)
unbracketed hostport j k host i =
    if has b'[' (drop j hostport) || has b']' (drop k hostport)
    then none
    else some (host, drop (i + 1) hostport)

-- A host in brackets ends just before the last colon.
abbrev pub bracketed : Text → ℕ → Option ℕ → Option (Text × Text)
bracketed hostport i none = none
bracketed hostport i (some end) =
    if end + 1 == i then unbracketed hostport 1 (end + 1) (drop 1 (take end hostport)) i else none

abbrev pub plain_host : Text → ℕ → Option (Text × Text)
plain_host hostport i =
    if has b':' (take i hostport) then none else unbracketed hostport 0 0 (take i hostport) i

abbrev pub split_at : Text → Option ℕ → Option (Text × Text)
split_at hostport none = none
split_at [] (some i) = none
split_at (c ∷ s) (some i) =
    if c == b'[' then bracketed (c ∷ s) i (index_of b']' (c ∷ s)) else plain_host (c ∷ s) i

-- net.SplitHostPort: `none` is an error.
unfoldable pub split_host_port : Text → Option (Text × Text)
unfolding index_of last_index_of
split_host_port hostport = split_at hostport (last_index_of b':' hostport)

-- strings.ContainsAny(name, " \t\r\n")
abbrev pub has_blank : Text → Bool
has_blank name = has 32 name || has 9 name || has 13 name || has 10 name

-- The digits of strconv.Atoi; `none` on another character. The range is tested at the end.
unfoldable pub atoi_digits : Text → ℕ → Option ℕ
atoi_digits [] n = some n
atoi_digits (c ∷ s) n =
    let rest = atoi_digits s (n * 10 + (c - b'0')) in
    if leb b'0' c && leb c b'9' then rest else none

abbrev pub atoi_unsigned : Text → Option ℕ
atoi_unsigned [] = none
atoi_unsigned (c ∷ s) = atoi_digits (c ∷ s) 0

abbrev pub as_positive : Option ℕ → Option ℤ
as_positive none = none
as_positive (some n) = if leb n max_int64 then some (pos n) else none

abbrev pub as_negative : Option ℕ → Option ℤ
as_negative none = none
as_negative (some zero) = some (pos 0)
as_negative (some (suc n)) = if leb n max_int64 then some (negsuc n) else none

-- strconv.Atoi: `none` is an error.
unfoldable pub atoi : Text → Option ℤ
unfolding atoi_digits
atoi [] = none
atoi (c ∷ s) =
    if c == b'-'
    then as_negative (atoi_unsigned s)
    else if c == b'+'
    then as_positive (atoi_unsigned s)
    else as_positive (atoi_unsigned (c ∷ s))
