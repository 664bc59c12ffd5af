-- ===== src/TcpConnection/Tests.antt =====
-- The connection of the fixture, with small buffers.
use cevent_loop.Prelude.{ℕ, ◌+◌, ◌≡◌, refl, true, List, [], ◌∷◌, ◌++◌, ok, arith, replicate, length}
use cevent_loop.Buffer.{Buffer, contents}
use cevent_loop.Poller.{add_channel}
use cevent_loop.TcpConnection.{Net, connected, disconnected, refused, send_in_loop}
use cevent_loop.Prelude.Int.{pos}
use cevent_loop.TcpConnection.{connecting}
use cevent_loop.TcpConnection.Keeping.{IsValid}
use cevent_loop.TcpConnection.Fixture.{
  nothing_kept, with_buffers, with_buffers-IsValid, callbacks, quiet,
}
use cevent_loop.TcpConnection.Order.{Turn, sends, writable, run, never_flushed}
use cevent_loop.TcpConnection.Deeds.{
  App, Deed, says, hears, flushes, ends, deeds, view, spec_deeds, Live,
}
use cevent_loop.TcpConnection.Duplex.{duplex_refines}
use cevent_loop.TcpConnection.Refused.{refused_write}

-- "ab" is kept.
abbrev two_kept : Buffer
two_kept = record {
  buf = replicate 8 0 ++ (97 ∷ 98 ∷ replicate 14 0);
  reader_index = 8;
  writer_index = 10;
}

abbrev with_output : Buffer → Net ℕ
with_output b = with_buffers nothing_kept b

idle-IsValid : IsValid (with_output nothing_kept)
idle-IsValid = with_buffers-IsValid nothing_kept nothing_kept (omega arith) (omega arith)

busy-IsValid : IsValid (with_output two_kept)
busy-IsValid = with_buffers-IsValid nothing_kept two_kept (omega arith) (omega arith)

-- The system takes one byte of the first message; the second is kept as it is.
abbrev turns : List Turn
turns = sends 1 (97 ∷ 98 ∷ []) ∷ writable ∷ sends 1 (99 ∷ []) ∷ []

never_flushed_example :
    (s' : Net ℕ) × (run callbacks turns (with_output two_kept) ≡ ok s')
    × (s'.wire ≡ [])
    × (contents s'.conn.output_buffer ≡ contents two_kept ++ (97 ∷ 98 ∷ 99 ∷ []))
unfolding contents
never_flushed_example =
    never_flushed callbacks quiet turns (with_output two_kept) busy-IsValid refl (omega arith)
      (omega arith) (omega arith)

-- "xyz" stands at position 1 of the object; the byte before it is 7.
refused_write_example :
    (s' : Net ℕ) × (send_in_loop callbacks true refused
        (7 ∷ 120 ∷ 121 ∷ 122 ∷ [])
        1
        3
        (with_output nothing_kept)
      ≡ ok s')
    × (contents s'.conn.output_buffer ≡ 7 ∷ 120 ∷ 121 ∷ [])
    × (s'.wire ≡ [])
unfolding contents
refused_write_example =
    refused_write callbacks (7 ∷ 120 ∷ 121 ∷ 122 ∷ []) 0 3 (with_output nothing_kept) idle-IsValid
      refl refl (omega arith) (omega arith)

-- A user who counts bytes and calls.
abbrev counting : App ℕ
counting = record {
  heard = λ text n. n + length text;
  told = λ state n. elim state [ disconnected ↦ n + 100 | connecting ↦ n | connected ↦ n ];
  shut = λ n. n + 1000;
}

abbrev day : List Deed
day = hears 3 104 (105 ∷ []) ∷ says 1 (97 ∷ 98 ∷ []) ∷ flushes ∷ ends ∷ says 0 (99 ∷ []) ∷ []

idle-Live : Live (with_output nothing_kept)
idle-Live = record { valid = idle-IsValid; input = omega arith; taken = refl }

duplex_refines_example :
    (s' : Net ℕ) × (deeds counting day (with_output nothing_kept) ≡ ok s')
    × (view s' ≡ spec_deeds counting day (view (with_output nothing_kept)))
    × Live s'
duplex_refines_example =
    duplex_refines counting day (with_output nothing_kept) idle-Live (omega arith) (omega arith)

-- Two bytes are heard, both functions are told of the end, and "ab" is all that is sent.
day-view :
    spec_deeds counting day (view (with_output nothing_kept))
    ≡ record { out = 97 ∷ 98 ∷ []; state = disconnected; user = 1102; closed = []; fd = pos 4 }
unfolding contents add_channel
day-view = refl
