-- ===== src/Zmq.antt =====
-- The class _ZmqSocket of src/npb/_zmq.py with ZmqPush and ZmqPull. pyzmq is a parameter: its calls on a
-- socket, which is a number here, change the state of ZeroMQ, which all sockets share.
pub mod Queues
pub mod Pipeline
use npb.Prelude.{
  ℕ, String, Bool, true, false, ◌||◌, Option, none, some, List, [], ◌∷◌, str_eq, ◌==◌,
  if◌then◌else◌, length, ℤ, pos_part, is_negative,
}
use npb.Errors.{Result, ok, err, value_error}
use npb.Exec.{Exec, pure, lift, ◌>>=◌, ◌>>◌}
use npb.Value.{Dtype, Fields, NdArray, nbytes}
use npb.Externals.{Externals}
use npb.Format.{Argument, array, require_binary_array}
use npb.Schema.{ModelClass}
use npb.Blob.{BlobStore}
use npb.Codec.Encode.{Object, byte_array, encode}
use npb.Codec.Decode.{decode_auto, decode}

-- zmq.LINGER and the other options that the constructor sets
pub data SocketOption : Type 0 where
  linger sndhwm rcvhwm sndtimeo rcvtimeo : SocketOption

-- pyzmq: the import, Context.instance(), context.socket(…), and a socket's methods.
pub record Pyzmq (Z : Type 0) : Type 0 where
  pub import_zmq : Exec Z (Unit {0})
  pub instance_of : Exec Z ℕ
  pub socket : ℕ → String → Exec Z ℕ
  pub setsockopt : ℕ → SocketOption → ℤ → Exec Z (Unit {0})
  pub bind : ℕ → String → Exec Z (Unit {0})
  pub connect : ℕ → String → Exec Z (Unit {0})
  pub send : ℕ → List ℕ → ℤ → Bool → Exec Z (Unit {0})
  pub recv : ℕ → ℤ → Exec Z (List ℕ)
  pub close : ℕ → Exec Z (Unit {0})

-- The object: self._socket, self._context, self.endpoint and self._closed.
pub record Socket : Type 0 where
  pub raw : ℕ
  pub context : ℕ
  pub endpoint : String
  pub closed : Bool

-- The constructor's arguments after `bind`.
pub record Settings : Type 0 where
  pub context : Option ℕ
  pub hwm : Option ℤ
  pub linger_ms : ℤ
  pub send_timeout_ms : Option ℤ
  pub recv_timeout_ms : Option ℤ

-- _socket_type_name of ZmqPush and of ZmqPull
abbrev pub push_type_name : String
push_type_name = "PUSH"

abbrev pub pull_type_name : String
pull_type_name = "PULL"

-- hwm is not None and hwm <= 0
unfoldable pub refuses : Option ℤ → Bool
refuses none = false
refuses (some hwm) = is_negative hwm || pos_part hwm == 0

-- The tests of the constructor, before pyzmq is imported.
unfoldable pub check_settings : String → Settings → Result (Unit {0})
unfolding refuses
check_settings endpoint settings =
    if str_eq endpoint ""
    then err value_error
    else if refuses settings.hwm
    then err value_error
    else if is_negative settings.linger_ms
    then err value_error
    else ok tt

module _ {Z : Type 0} (zmq : Pyzmq Z) where
  -- self._context
  unfoldable pub context_of : Option ℕ → Exec Z ℕ
  context_of (some context) = pure context
  context_of none = zmq.instance_of

  unfoldable pub set_hwm : ℕ → Option ℤ → Exec Z (Unit {0})
  set_hwm raw none = pure tt
  set_hwm raw (some hwm) = do zmq.setsockopt raw sndhwm hwm; zmq.setsockopt raw rcvhwm hwm

  unfoldable pub set_timeout : ℕ → SocketOption → Option ℤ → Exec Z (Unit {0})
  set_timeout raw option none = pure tt
  set_timeout raw option (some timeout_ms) = zmq.setsockopt raw option timeout_ms

  unfoldable pub attach : (is_bound : Bool) → ℕ → String → Exec Z (Unit {0})
  attach true raw endpoint = zmq.bind raw endpoint
  attach false raw endpoint = zmq.connect raw endpoint

  -- _ZmqSocket.__init__ in the class of that socket type
  unfoldable pub new_socket : String → String → (is_bound : Bool) → Settings → Exec Z Socket
  unfolding check_settings context_of set_hwm set_timeout attach
  new_socket type_name endpoint is_bound settings = do
    lift (check_settings endpoint settings)
    zmq.import_zmq
    context ← context_of settings.context
    raw ← zmq.socket context type_name
    zmq.setsockopt raw linger settings.linger_ms
    set_hwm raw settings.hwm
    set_timeout raw sndtimeo settings.send_timeout_ms
    set_timeout raw rcvtimeo settings.recv_timeout_ms
    attach is_bound raw endpoint
    pure (record { raw = raw; context = context; endpoint = endpoint; closed = false })

  -- The class methods bind and connect.
  unfoldable pub bind : String → String → Settings → Exec Z Socket
  bind type_name endpoint settings = new_socket type_name endpoint true settings

  unfoldable pub connect : String → String → Settings → Exec Z Socket
  connect type_name endpoint settings = new_socket type_name endpoint false settings

  -- After raw.close() has returned, the object is marked.
  abbrev pub mark_closed : Socket → Result (Unit {0}) × Z → Result (Unit {0}) × (Socket × Z)
  mark_closed self (ok done, z) = (ok tt, (record self { closed = true }, z))
  mark_closed self (err e, z) = (err e, (self, z))

  unfoldable pub close : Exec (Socket × Z) (Unit {0})
  close (self, z) =
      if self.closed then (ok tt, (self, z)) else mark_closed self (zmq.close self.raw z)

  -- The end of a `with` block: its exception, if it has one, is raised again where this returns.
  unfoldable pub exit : Exec (Socket × Z) (Unit {0})
  unfolding close
  exit = close

  unfoldable pub send : Socket → Argument → (copy : Bool) → (flags : ℤ) → Exec Z ℕ
  send self binary copy flags = do
    checked ← lift (require_binary_array binary)
    zmq.send self.raw checked.content flags copy
    pure (nbytes checked)

abbrev pub uint8 : Dtype
uint8 = record { name = "|u1"; itemsize = 1; hasobject = false; structured = false }

-- A bytes object, as the buffer that it is: it is not writable.
abbrev pub bytes_object : List ℕ → NdArray
bytes_object payload = record (byte_array payload) { writeable = false }

module _ {Z : Type 0} (zmq : Pyzmq Z) (ext : Externals) where
  -- np.frombuffer(payload, dtype=np.uint8)
  unfoldable pub recv : Socket → (flags : ℤ) → Exec Z NdArray
  recv self flags = do
    payload ← zmq.recv self.raw flags
    lift (ext.from_buffer (bytes_object payload) uint8 (length payload) 0 (length payload ∷ []))

-- What a call does to a blob store, or to ZeroMQ, where there are both.
abbrev pub on_store : {S Z A : Type 0} → Exec S A → Exec (S × Z) A
on_store m (s, z) = ((m s).0, ((m s).1, z))

abbrev pub on_zmq : {S Z A : Type 0} → Exec Z A → Exec (S × Z) A
on_zmq m (s, z) = ((m z).0, (s, (m z).1))

module _ {S Z : Type 0} (zmq : Pyzmq Z) (ext : Externals) (blob_store : Option (BlobStore S)) where
  unfoldable pub send_model :
      Socket
      → Object
      → (externalize_min_bytes : Option ℤ) → (copy : Bool) → (flags : ℤ) → Exec (S × Z) ℕ
  unfolding send
  send_model self obj externalize_min_bytes copy flags = do
    binary ← on_store (encode ext blob_store externalize_min_bytes obj none)
    on_zmq (send zmq self (array binary) copy flags)

  unfoldable pub recv_auto : Socket → (flags : ℤ) → Exec (S × Z) Fields
  unfolding recv
  recv_auto self flags = do
    binary ← on_zmq (recv zmq ext self flags)
    on_store (decode_auto ext blob_store (array binary))

  unfoldable pub recv_model :
      {M : Type 0} → Socket → ModelClass → (Fields → Result M) → (flags : ℤ) → Exec (S × Z) M
  unfolding recv
  recv_model self model_type validate flags = do
    binary ← on_zmq (recv zmq ext self flags)
    on_store (decode ext blob_store model_type validate (array binary))
