-- ===== src/TcpConnection/Deeds.antt =====
-- A connection as its user sees it: what it says, what it hears, and its end.
use cevent_loop.Prelude.{
  ℕ, ◌+◌, ◌≤◌, ◌≡◌, true, none, some, List, [], ◌∷◌, ◌++◌, length, if◌then◌else◌, Exec, ok, ◌>>=◌,
}
use cevent_loop.Prelude.Int.{ℤ}
use cevent_loop.Buffer
use cevent_loop.Buffer.{
  Buffer, Received, stored, read_fd, contents, retrieve_all, retrieve_all_as_string,
}
use cevent_loop.Buffer.Valid
use cevent_loop.Buffer.Valid.{extended, extended-IsValid}
use cevent_loop.TcpConnection.{
  Net, Callbacks, States, disconnected, descriptor, is_disconnected, took, send_in_loop,
  handle_read, handle_write,
}
use cevent_loop.TcpConnection.Keeping.{IsValid}

-- What the user of a connection does with what it hears, and when it is told of a change and of the end.
pub record App (W : Type 0) : Type 0 where
  pub heard : List ℕ → W → W
  pub told : States → W → W
  pub shut : W → W

-- What happens to a connection: a message is sent, of which the system would take so many bytes at once;
-- bytes come, at a time; a read fails; the socket is writable; the input ends.
pub data Deed : Type 0 where
  says : ℕ → List ℕ → Deed
  hears : ℕ → ℕ → List ℕ → Deed
  misses : ℕ → Deed
  flushes : Deed
  ends : Deed

-- The bytes that left or wait to leave, whether the connection is up, the user, the descriptors that
-- were closed, and its own.
pub record View (W : Type 0) : Type 0 where
  pub out : List ℕ
  pub state : States
  pub user : W
  pub closed : List ℤ
  pub fd : ℤ

module _ {W : Type 0} where
  -- Its callbacks: the one for messages takes everything, as with `retrieveAllAsString`.
  abbrev pub takes_all : App W → ℕ → Net W → Exec (Net W)
  takes_all a time s = do
    (text, b) ← retrieve_all_as_string s.conn.input_buffer
    ok (record s { conn = record s.conn { input_buffer = b }; world = a.heard text s.world })

  abbrev pub callbacks_of : App W → Callbacks W
  callbacks_of a = record {
    connection = some (λ s. ok (record s { world = a.told s.conn.state s.world }));
    message = some (takes_all a);
    close = some (λ s. ok (record s { world = a.shut s.world }));
    write_complete = none;
    high_water = none;
    write = none;
  }

  unfoldable pub deed : App W → Deed → Net W → Exec (Net W)
  unfolding send_in_loop handle_read handle_write
  deed a (says n text) s = send_in_loop (callbacks_of a) true (took n) text 0 (length text) s
  deed a (hears time x xs) s = handle_read (callbacks_of a) true time (stored (x ∷ xs)) s
  deed a (misses e) s = handle_read (callbacks_of a) true 0 (Buffer.failed e) s
  deed a flushes s = handle_write s
  deed a ends s = handle_read (callbacks_of a) true 0 (stored []) s

  unfoldable pub deeds : App W → List Deed → Net W → Exec (Net W)
  unfolding deed
  deeds a [] s = ok s
  deeds a (d ∷ ds) s = deed a d s >>= deeds a ds

  abbrev pub view : Net W → View W
  view s = record {
    out = s.wire ++ contents s.conn.output_buffer;
    state = s.conn.state;
    user = s.world;
    closed = s.closed;
    fd = descriptor s;
  }

  abbrev pub spec_deed : App W → Deed → View W → View W
  spec_deed a (says n text) v =
      if is_disconnected v.state then v else record v { out = v.out ++ text }
  spec_deed a (hears time x xs) v = record v { user = a.heard (x ∷ xs) v.user }
  spec_deed a (misses e) v = v
  spec_deed a flushes v = v
  spec_deed a ends v = record v { state = disconnected; user = a.shut (a.told disconnected v.user) }

  abbrev pub spec_deeds : App W → List Deed → View W → View W
  spec_deeds a [] v = v
  spec_deeds a (d ∷ ds) v = spec_deeds a ds (spec_deed a d v)

  -- Nothing waits in the input buffer, and all else is in order.
  pub record Live (s : Net W) : Type 0 where
    pub valid : IsValid s
    pub input : Buffer.Valid.IsValid s.conn.input_buffer
    pub taken : s.conn.input_buffer.writer_index ≡ 8

abbrev pub said : List Deed → ℕ
said [] = 0
said (says n text ∷ ds) = length text + said ds
said (hears time x xs ∷ ds) = said ds
said (misses e ∷ ds) = said ds
said (flushes ∷ ds) = said ds
said (ends ∷ ds) = said ds

-- `write` takes no more than it is given, and what comes at once fits in an empty buffer of that size.
abbrev pub Small : ℕ → List Deed → Type 0
Small size [] = Unit
Small size (says n text ∷ ds) = (n ≤ length text) × Small size ds
Small size (hears time x xs ∷ ds) = (8 + length (x ∷ xs) ≤ size) × Small size ds
Small size (misses e ∷ ds) = Small size ds
Small size (flushes ∷ ds) = Small size ds
Small size (ends ∷ ds) = Small size ds
