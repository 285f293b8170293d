-- ===== src/MemBuf/Tests.antt =====
-- Runs of src/mem_buf.c, and its theorems at concrete buffers.
use quake2world.Prelude.{◌≡◌, refl, true, none, some, [], ◌∷◌, arith}
use quake2world.MemBuf.{MemBuf, init_buffer, alloc_buffer, write_buffer}
use quake2world.MemBuf.Valid.{IsValid}
use quake2world.MemBuf.Spec.{log_of, append, write_buffer_refines}

abbrev four : MemBuf
four = init_buffer (0 ∷ 0 ∷ 0 ∷ 0 ∷ []) 4

-- three bytes in use, of four, in a buffer that may overflow
abbrev filled : MemBuf
filled = record four { allow_overflow = true; bytes = 1 ∷ 2 ∷ 3 ∷ 0 ∷ []; size = 3 }

filled-IsValid : IsValid filled
filled-IsValid = omega arith

-- The buffer forgets what it held.
write_overflows : log_of (write_buffer filled (8 ∷ 9 ∷ [])) ≡ some (8 ∷ 9 ∷ [], true)
unfolding write_buffer alloc_buffer
write_overflows = refl

write_aborts : write_buffer four (1 ∷ 2 ∷ 3 ∷ 4 ∷ 5 ∷ []) ≡ none
unfolding write_buffer alloc_buffer
write_aborts = refl

write_buffer_refines_example :
    log_of (write_buffer filled (8 ∷ 9 ∷ []))
    ≡ append 4 true (1 ∷ 2 ∷ 3 ∷ [], filled.overflowed) (8 ∷ 9 ∷ [])
write_buffer_refines_example = write_buffer_refines (8 ∷ 9 ∷ []) filled-IsValid (omega arith)

filled_room : alloc_buffer filled 1 ≡ some (3, record filled { size = 4 })
unfolding alloc_buffer
filled_room = refl
