-- ===== src/Dispatcher/Closing.antt =====
-- What `Close` does to the calls that run beside it.
use lib_sager_net_core.Common.{
  ◌≡◌, ◌≢◌, Bool, true, false, List, [], ◌∷◌, if◌then◌else◌, length, arith,
}
use lib_sager_net_core.Dispatcher.{
  Buffer, Packet, Conn, push, dropped, panicked, read_from, read_from_slice, Read, received, eof,
  crashed, close, write_to,
}

-- The flags of a connection agree.
abbrev pub IsValid : Conn → Type 0
IsValid c =
    (c.cache_closed ≡ c.closed)
    × (c.ctx_done ≡ c.closed)
    × (c.interrupts ≡ (if c.closed then 2 else 0))

pub data Call : Type 0 where
  pushes : (choice : Bool) → Buffer → Call
  reads slice_reads : (choice : Bool) → Call
  writes : (failed : Bool) → Call
  closes : Call

pub after : Call → Conn → Conn
after (pushes choice b) c = (push choice b c).0
after (reads choice) c = (read_from choice c).0
after (slice_reads choice) c = (read_from_slice choice c).0
after (writes failed) c = (write_to failed c).0
after closes c = close c

pub run_calls : List Call → Conn → Conn
run_calls [] c = c
run_calls (x ∷ xs) c = run_calls xs (after x c)

pub after-IsValid : (x : Call) (c : Conn) → IsValid c → IsValid (after x c)
unfolding after push read_from read_from_slice write_to close
after-IsValid (pushes choice b) c h = ground arith
after-IsValid (reads choice) c h = ground arith
after-IsValid (slice_reads choice) c h = ground arith
after-IsValid (writes failed) c h = ground arith
after-IsValid closes c h = ground arith

-- After any calls that run one after another, a connection is closed as a whole or open as a whole, and its
-- link was interrupted at both ends once if it is closed, however often `Close` ran.
pub run_calls-IsValid : (xs : List Call) (c : Conn) → IsValid c → IsValid (run_calls xs c)
unfolding run_calls
run_calls-IsValid [] c h = h
run_calls-IsValid (x ∷ xs) c h = run_calls-IsValid xs (after x c) (after-IsValid x c h)

abbrev pub first_or_eof : List Packet → Read
first_or_eof [] = eof
first_or_eof (p ∷ rest) = received p

-- After `Close`, `readFrom` waits for nothing and does not panic: as the `select` chooses it returns
-- the end of the stream, or the first packet that was in the cache, and the end if there was none.
pub read_from-close :
    (c : Conn)
    → IsValid c
    → ((read_from false (close c)).1 ≡ eof) × ((read_from true (close c)).1 ≡ first_or_eof c.cache)
unfolding read_from close
read_from-close c h = ground arith

-- After `Close`, a buffer that is not empty makes `handleInput` panic, by a send on the closed
-- channel, or is released, as the `select` chooses.
pub push-close :
    (b : Buffer) (c : Conn)
    → IsValid c
    → length b.payload ≢ 0
    → ((push true b (close c)).1 ≡ panicked) × ((push false b (close c)).1 ≡ dropped)
unfolding push close
push-close b c h full = ground arith

-- After `Close`, with nothing in the cache, `ReadFrom` may take the closed channel, and panics at the
-- nil packet, where `readFrom` returns the end of the stream.
pub read_from_slice-close :
    (c : Conn)
    → IsValid c
    → c.cache ≡ []
    → ((read_from_slice true (close c)).1 ≡ crashed) × ((read_from true (close c)).1 ≡ eof)
unfolding read_from_slice read_from close
read_from_slice-close c h empty = ground arith
