-- ===== src/Mstore/Client/Settled.antt =====
-- The client of mstore/client.py closes the descriptors that come with responses.
use npb.Prelude.{ℕ, String, Option, List, [], ◌∷◌}
use npb.Mstore.Json.{Json}
use npb.Mstore.Client.{System, State}
use npb.Mstore.Client.Methods.{ping, issue_token, revoke_token, info, clear, delete, close}
use npb.Mstore.Client.Settles.{Settles}

-- The methods that keep no descriptor, with their arguments.
pub data Call : Type 0 where
  pinging closing : Call
  granting : String → String → Json → Json → Call
  revoking : String → String → String → Call
  describing deleting : String → String → Call
  clearing : Option String → Option String → Option String → Call

module _ {W : Type 0} (sys : System W) (endpoint : String) (cache_size : ℕ)
    (to_str : Json → String) where
  unfoldable pub call : Call → State W → State W
  unfolding ping close issue_token revoke_token info delete clear
  call pinging c = (ping sys endpoint cache_size to_str c).1
  call closing c = (close sys endpoint cache_size to_str c).1
  call (granting object_id token permissions expires_in) c =
      (issue_token sys endpoint cache_size to_str object_id token permissions expires_in c).1
  call (revoking object_id token target) c =
      (revoke_token sys endpoint cache_size to_str object_id token target c).1
  call (describing object_id token) c = (info sys endpoint cache_size to_str object_id token c).1
  call (deleting object_id token) c = (delete sys endpoint cache_size to_str object_id token c).1
  call (clearing object_id token mode) c =
      (clear sys endpoint cache_size to_str object_id token mode c).1

  unfoldable pub call_all : List Call → State W → State W
  unfolding call
  call_all [] c = c
  call_all (x ∷ xs) c = call_all xs (call x c)
