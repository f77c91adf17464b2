-- ===== src/Lib.antt =====
-- NPB packs a pydantic model with its NumPy arrays into one frame-aligned byte array, and reads it back
-- without copying the arrays. Beside it, the example "mstore" keeps mutable shared-memory objects
-- under capability tokens.
--
-- The library, src/npb:
-- * Format models _format.py: the header as a record, its 64 bytes, parse_header with its tests in
--   their order, align_up.
-- * Schema models _schema.py: binary_schema, its decorator, schema_identity. uuid5 is a parameter.
-- * Blob models _blob.py: BlobRef (declared in Value), to_manifest, from_manifest, and the operations
--   of a store that the codec calls, as functions on the store's state.
-- * Codec models _codec.py. Manifest is _manifest_tree with its list of arrays and its cursor as a
--   state; Encode is _analyze_model, encoded_size, _prepare_output and encode on the bytes of the
--   output buffer; Restore is _restore_tree; Decode is _decode_tree, peek, decode_auto and decode.
-- * Vineyard models _vineyard.py: the store on the client's state, with its table of resolved references.
--   Vineyard/RoundTrip and Vineyard/Reuse are about its put_array and get_array.
-- * Zmq models _zmq.py: sockets are numbers, on ZeroMQ's state; Zmq/Pipeline joins them to the codec and
--   a blob store.
-- * Codec/RoundTrip/Setting says what a proof on the codec assumes of the encoder's and the decoder's
--   store; Inlined and Stored are its two cases, without a store and with one.
-- * Value holds the Python values that the codec walks, Errors the exceptions, Exec the code that
--   changes a state and may raise.
-- * Externals is what numpy, pydantic and Python's conversions do: parameters, with what their
--   documentation promises as the record Documented. Tests/Documented gives an instance of it.
--
-- The store, examples/zeromq_mutable_shm_chain/mstore:
-- * Mstore/Errors models errors.py and the table of error codes of server.py.
-- * Mstore/Permissions and Mstore/Registry model registry.py and models.py. A method runs under the
--   registry's lock, so that it is one step; what it draws at random and reads from the clock are
--   arguments. Floats are IEEE 754 bit patterns, compared as Python compares them; their sum and
--   sha256 are parameters.
-- * Mstore/Protocol models protocol.py: encode_frame, decode_frame, and recv_exact and recv_frame on a
--   socket that gives the peer's bytes in pieces of any sizes.
-- * Mstore/Server models _handle of server.py, with a data type of replies in place of the JSON objects
--   that it returns; Mstore/Server/Serve models _serve_connection: a round has what the connection gives
--   and takes. The worker ends with the rounds at the latest: the peer has closed then.
-- * Mstore/Cache models _MappingState and the mapping cache of client.py: an OrderedDict is a list of
--   entries, the least recently used first, and the mappings are a function of their numbers.
-- * Mstore/Client models the connection of Client, Mstore/Client/Creation the tests of create, and
--   Mstore/Client/Methods the methods of Client and SharedObject, on a parameter for sockets, mmap and
--   processes.
-- * Mstore/Protocol/Descriptors models the frames with a descriptor, and those on pipes.
-- * Mstore/Endpoint and Mstore/Transport model transport.py: endpoints, control connections and listeners,
--   on a parameter for sockets, pipes and files.
-- * Mstore/Regions models backend.py on a parameter for the operating system; Regions/Mapped joins it to the
--   client and Regions/Access to the server.
-- * Mstore/Server/Listening models the accept loops and shutdown of server.py: the acceptor's turns, with the
--   events of other threads between its steps; Listening/Forever models serve_forever and
--   _cleanup, whose steps have such events between them too.
--   The loop has the turns that there are.
-- * Mstore/Json holds floats and JSON values, Mstore/Dict Python dicts with text keys.
--
-- Chain models producer.py, stage.py and sink.py of examples/zeromq_mutable_shm_chain: what they do with the
-- shared array, as steps in which a stage takes what the stage before it left.
--
-- HugeBlob models examples/iceoryx2_huge_blob: HugeBlob is common.py, Publisher and Subscriber are the two
-- scripts, on the codec. A sample is the bytes of the memory that is sent; the subscriber's loop has the polls
-- that there are. MARKER_BYTES, so that a test can run with fewer than 4096, and
-- np.shares_memory are parameters.
--
-- VineyardChain models examples/vineyard_chain on the codec and any blob store: what each process does with one
-- sample, and the chain of the processes, where service n has what stage n sent. EXTERNALIZE and
-- the sum of an image's first elements are parameters. The loops that wait for a sample are left out.
--
-- Every loop of the code is a recursion on its data, but that of recv_exact, which has as many rounds as
-- bytes to receive: each round that goes on receives one at least. Machine widths stand
-- where the code has them: in the fields of the header, in the int64 product of Client.create, in the bytes of
-- the example's array, and in Python's slices, which are cut to the buffer. Python integers have no bound.
--
-- Not modelled: messages of exceptions; the waits of threads and the command line of mstore; NumPy's views of a
-- SharedObject; the other example scripts, the benchmarks and tests.
pub mod Prelude
pub mod Errors
pub mod Exec
pub mod Value
pub mod Externals
pub mod Format
pub mod Blob
pub mod Schema
pub mod Codec
pub mod Vineyard
pub mod Zmq
pub mod Mstore
pub mod Chain
pub mod HugeBlob
pub mod VineyardChain
mod Tests
