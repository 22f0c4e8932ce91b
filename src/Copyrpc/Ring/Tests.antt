-- ===== src/Copyrpc/Ring/Tests.antt =====
-- The unit tests of copyrpc/src/ring.rs, and instances of the theorems.
use locasta.Base.{
  ℕ, ◌+◌, ◌%◌, ◌≤◌, ◌<◌, ◌≡◌, refl, true, false, [], ◌∷◌, some, none, arith, length, get_or,
  if◌then◌else◌, ltb,
}
use locasta.Copyrpc.Ring.{
  RingBufferState, RingBuffer, available_write, available_read, can_write, check_wrap, to_offset,
  slice_at, write, next_power_of_two, double_until,
}
use locasta.Copyrpc.Ring.Positions.{IsValid, available_lem}
use locasta.Copyrpc.Ring.Writes.{write_lem}

-- `test_ring_buffer_wrap`
abbrev wrapped : RingBufferState
wrapped = record { producer = 224; consumer = 200; size = 256 }

wraps : (check_wrap wrapped 64 ≡ (224, true)) × (check_wrap wrapped 32 ≡ (224, false))
unfolding check_wrap to_offset
wraps = (refl, refl)

rounded_up : next_power_of_two 200 ≡ 256
unfolding next_power_of_two double_until
rounded_up = refl

abbrev small : RingBuffer
small = record { buf = 1 ∷ 2 ∷ 3 ∷ 4 ∷ []; state = record { producer = 7; consumer = 5; size = 4 } }

-- The second byte goes round the end.
write_round : write small (8 ∷ 9 ∷ []) ≡ some (record small { buf = 9 ∷ 2 ∷ 3 ∷ 8 ∷ [] }, 7)
unfolding write to_offset
write_round = refl

slices : (slice_at small 5 2 ≡ some (2 ∷ 3 ∷ [])) × (slice_at small 7 2 ≡ none)
unfolding slice_at to_offset
slices = (refl, refl)

wrapped-IsValid : IsValid wrapped
wrapped-IsValid = omega arith

available_lem_example :
    (200 + available_read wrapped ≡ 224) × (available_read wrapped + available_write wrapped ≡ 256)
available_lem_example = available_lem wrapped wrapped-IsValid

wrapped_has_room : can_write wrapped 64 ≡ true
unfolding can_write available_write
wrapped_has_room = refl

wrapped_has_bytes : 8 ≤ available_read wrapped
unfolding available_read
wrapped_has_bytes = omega arith

write_lem_example :
    (out : RingBuffer) × (write small (8 ∷ 9 ∷ []) ≡ some (out, 7))
    × (out.state ≡ small.state)
    × (length out.buf ≡ 4)
    × ((i : ℕ)
        → i < 4
        → get_or out.buf ((7 + i) % 4) 0
          ≡ (if ltb i 2 then get_or (8 ∷ 9 ∷ []) i 0 else get_or small.buf ((7 + i) % 4) 0))
write_lem_example = write_lem small 2 (8 ∷ 9 ∷ []) refl (omega arith) refl (omega arith)
