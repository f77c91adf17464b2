-- ===== src/Mstore/Endpoint.antt =====
-- The endpoints of mstore/transport.py: _pipe_name, default_endpoint and parse_endpoint. A text is its code
-- points.
pub mod Decimal
use npb.Prelude.{
  ℕ, Bool, true, false, ◌&&◌, ◌||◌, Option, none, some, List, [], ◌∷◌, ◌++◌, leb, ◌==◌,
  if◌then◌else◌, ℤ, pos,
}
use Decimal.{decimal, natural}
use mathlib.Core.List.{reverse}
use npb.Schema.{strip, is_empty}
use npb.Mstore.Errors.{Result, ok, err, ◌>>=◌, other_error}

abbrev pub colon : ℕ
colon = b':'

abbrev pub unix_scheme : List ℕ
unix_scheme = b'u' ∷ b'n' ∷ b'i' ∷ b'x' ∷ b':' ∷ b'/' ∷ b'/' ∷ []

abbrev pub tcp_scheme : List ℕ
tcp_scheme = b't' ∷ b'c' ∷ b'p' ∷ b':' ∷ b'/' ∷ b'/' ∷ []

abbrev pub pipe_scheme : List ℕ
pipe_scheme = b'p' ∷ b'i' ∷ b'p' ∷ b'e' ∷ b':' ∷ b'/' ∷ b'/' ∷ []

-- "\\.\pipe\"
abbrev pub pipe_root : List ℕ
pipe_root = 92 ∷ 92 ∷ b'.' ∷ 92 ∷ b'p' ∷ b'i' ∷ b'p' ∷ b'e' ∷ 92 ∷ []

-- `if cs.startswith(prefix): cs[len(prefix):]`
unfoldable pub without_prefix : (prefix : List ℕ) → List ℕ → Option (List ℕ)
without_prefix [] cs = some cs
without_prefix (p ∷ ps) [] = none
without_prefix (p ∷ ps) (c ∷ cs) = if p == c then without_prefix ps cs else none

-- cs.rpartition(sep), where `none` is a text without the separator
unfoldable pub rpartition : (sep : ℕ) → List ℕ → Option (List ℕ × List ℕ)
rpartition sep [] = none
rpartition sep (c ∷ cs) = elim (rpartition sep cs) [
  | some (before, after) ↦ some (c ∷ before, after)
  | none ↦ if c == sep then some ([], cs) else none
]

-- What parse_endpoint returns: the kind with its address.
pub data Address : Type 0 where
  unix : List ℕ → Address
  tcp : List ℕ → ℤ → Address
  pipe : List ℕ → Address

-- [A-Za-z0-9_.-]
unfoldable pub is_plain : ℕ → Bool
is_plain c =
    (leb b'A' c && leb c b'Z')
    || (leb b'a' c && leb c b'z')
    || (leb b'0' c && leb c b'9')
    || c == b'_'
    || c == b'.'
    || c == b'-'

-- re.sub(r"[^A-Za-z0-9_.-]+", "-", cs), after a character that was replaced or not
unfoldable pub replace_runs : (replaced : Bool) → List ℕ → List ℕ
unfolding is_plain
replace_runs replaced [] = []
replace_runs true (c ∷ cs) =
    let same_run = replace_runs true cs in
    let after = c ∷ replace_runs false cs in if is_plain c then after else same_run
replace_runs false (c ∷ cs) =
    let new_run = b'-' ∷ replace_runs true cs in
    let after = c ∷ replace_runs false cs in if is_plain c then after else new_run

-- cs.lstrip("-")
unfoldable pub lstrip_dash : List ℕ → List ℕ
lstrip_dash [] = []
lstrip_dash (c ∷ cs) = if c == b'-' then lstrip_dash cs else c ∷ cs

abbrev pub or_user : List ℕ → List ℕ
or_user [] = b'u' ∷ b's' ∷ b'e' ∷ b'r' ∷ []
or_user (c ∷ cs) = c ∷ cs

-- "mstore-"
abbrev pub mstore_prefix : List ℕ
mstore_prefix = b'm' ∷ b's' ∷ b't' ∷ b'o' ∷ b'r' ∷ b'e' ∷ b'-' ∷ []

-- `user` is getpass.getuser().
unfoldable pub _pipe_name : (user : List ℕ) → List ℕ
unfolding replace_runs lstrip_dash
_pipe_name user =
    mstore_prefix
    ++ or_user (reverse (lstrip_dash (reverse (lstrip_dash (replace_runs false user)))))

-- `os.environ.get("XDG_RUNTIME_DIR") or "/tmp"`
abbrev pub or_tmp : Option (List ℕ) → List ℕ
or_tmp none = b'/' ∷ b't' ∷ b'm' ∷ b'p' ∷ []
or_tmp (some []) = b'/' ∷ b't' ∷ b'm' ∷ b'p' ∷ []
or_tmp (some (c ∷ cs)) = c ∷ cs

-- What the endpoint of this user is made of: os.name == "nt", getpass.getuser(), XDG_RUNTIME_DIR and
-- os.getuid().
pub record Surroundings : Type 0 where
  pub is_windows : Bool
  pub user : List ℕ
  pub runtime_dir : Option (List ℕ)
  pub uid : ℕ

unfoldable pub default_endpoint : Surroundings → List ℕ
unfolding _pipe_name decimal
default_endpoint env =
    if env.is_windows
    then pipe_scheme ++ _pipe_name env.user
    else unix_scheme
      ++ (or_tmp env.runtime_dir
          ++ (b'/'
              ∷ (mstore_prefix ++ (decimal env.uid ++ (b'.' ∷ b's' ∷ b'o' ∷ b'c' ∷ b'k' ∷ [])))))

-- int(cs), where `int_other` is int of a text that is not of ASCII digits alone
unfoldable pub int_of : (int_other : List ℕ → Result ℤ) → List ℕ → Result ℤ
unfolding natural
int_of int_other cs = elim (natural cs) [ some n ↦ ok (pos n) | none ↦ int_other cs ]

module _ (int_other : List ℕ → Result ℤ) where
  unfoldable pub with_port : (host port : List ℕ) → Result Address
  unfolding int_of
  with_port host port =
      if is_empty host || is_empty port
      then err other_error
      else int_of int_other port >>= λ n. ok (tcp host n)

  unfoldable pub parse_tcp : List ℕ → Result Address
  unfolding rpartition with_port
  parse_tcp hostport = elim (rpartition colon hostport) [
    | none ↦ err other_error
    | some (host, port) ↦ with_port host port
  ]

  unfoldable pub pipe_address : List ℕ → List ℕ
  unfolding without_prefix
  pipe_address name = elim (without_prefix pipe_root name) [
    | some rest ↦ name
    | none ↦ pipe_root ++ name
  ]

  unfoldable pub parse_pipe : List ℕ → Result Address
  unfolding pipe_address
  parse_pipe text =
      let name = strip text in
      if is_empty name then err other_error else ok (pipe (pipe_address name))

  abbrev pub or_pipe : Option (List ℕ) → Result Address
  or_pipe (some text) = parse_pipe text
  or_pipe none = err other_error

  abbrev pub or_tcp : Option (List ℕ) → Result Address → Result Address
  or_tcp (some hostport) rest = parse_tcp hostport
  or_tcp none rest = rest

  abbrev pub or_unix : Option (List ℕ) → Result Address → Result Address
  or_unix (some path) rest = ok (unix path)
  or_unix none rest = rest

  unfoldable pub parse_endpoint : List ℕ → Result Address
  unfolding without_prefix parse_tcp parse_pipe
  parse_endpoint endpoint =
      or_unix (without_prefix unix_scheme endpoint) (
        or_tcp (without_prefix tcp_scheme endpoint) (or_pipe (without_prefix pipe_scheme endpoint)))
