-- ===== src/Tests/Requests.antt =====
-- Requests to a server with one object.
use npb.Prelude.{none, some}
use npb.Mstore.Errors.{Exn, ok}
use npb.Mstore.Json.{Members, object, text, member, end}
use npb.Mstore.Server.{Services, Draws}
use npb.Tests.Stores.{image_draw, reader_draw}

abbrev pub services : Services
services = record {
  int_other = λ v. ok none;
  str_other = λ v. "?";
  no_names = λ v. Exn.other_error;
  client_mapping = λ region mode. ok (text mode, some region);
  endpoint = "unix:///tmp/mstore.sock";
}

abbrev pub draws : Draws
draws = record { creation = image_draw; token = reader_draw; now = 20; later = 20; closing = ok tt }

abbrev pub open_args : Members
open_args = member "object_id" (text "image") (member "token" (text "reader") end)

abbrev pub request : Members
request = member "op" (text "open") (member "args" (object open_args) end)
