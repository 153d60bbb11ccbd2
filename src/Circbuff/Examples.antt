-- ===== src/Circbuff/Examples.antt =====
-- writer.hpp and reader.hpp at a buffer of eight numbers.
use cplease.Base.{ℕ, ◌≡◌, refl, ◌↔◌, List, [], ◌∷◌, ◌++◌, replicate, none, some, ◌>>=◌, arith}
use cplease.Circbuff.{Cursor, advance}
use cplease.Circbuff.Slots.{IsBuffer}
use cplease.Circbuff.Window.{put_seq, window}
use cplease.Circbuff.Writer.{write, put}
use cplease.Circbuff.Writer.Copy.{write_lem, put_lem}
use cplease.Circbuff.Writer.Faults.{write_overruns, write_staged_overreads}
use cplease.Circbuff.Reader.{read_into, peek_using, read_using, get_span_0, get_span_1, copy_to}
use cplease.Circbuff.Reader.Copy.{read_into_lem, peek_using-eq-read_using}
use cplease.Circbuff.Reader.Faults.{read_staged_overflows, get_span-IsInside, IsInside}
use cplease.Circbuff.Fifo.{write_then_read, read-write, write_twice_then_read, read_overrun}

abbrev array : List ℕ
array = 0 ∷ 1 ∷ 2 ∷ 3 ∷ 4 ∷ 5 ∷ 6 ∷ 7 ∷ []

array-IsBuffer : IsBuffer 8 array
array-IsBuffer = record { exponent = 3; power = refl; small = omega arith; size = refl }

-- A writer or a reader six values into the buffer, without and with a staging buffer of four.
abbrev at_six : Cursor ℕ
at_six = record { index = 6; min_contiguous_buffer = [] }

abbrev staged_at_six : Cursor ℕ
staged_at_six = record { index = 6; min_contiguous_buffer = replicate 4 0 }

-- The last index before it wraps.
abbrev at_last : Cursor ℕ
at_last = record { index = 18446744073709551615; min_contiguous_buffer = [] }

abbrev three : List ℕ
three = 10 ∷ 11 ∷ 12 ∷ []

write_lem_example :
    write 8 0 at_six array three 3 ≡ some (advance at_six 3, put_seq 8 array 6 three)
write_lem_example = write_lem 8 at_six array three 3 array-IsBuffer (omega arith) (omega arith)

put_lem_example : put 8 at_six array 10 ≡ some (advance at_six 1, put_seq 8 array 6 (10 ∷ []))
put_lem_example = put_lem 8 at_six array 10 array-IsBuffer

read_into_lem_example :
    read_into 8 0 at_six array three 2 ≡ some (advance at_six 2, window 8 0 array 6 2 ++ 12 ∷ [])
read_into_lem_example =
    read_into_lem 8 0 at_six array three 2 array-IsBuffer (omega arith) (omega arith)

peek_using-eq-read_using_example :
    peek_using 8 copy_to (0, three) at_six array 3
    ≡ (read_using 8 0 copy_to (0, three) at_six array 3 >>= λ done. some (done.0, done.2, done.3))
peek_using-eq-read_using_example = peek_using-eq-read_using 8 copy_to (0, three) at_six array 3

write_overruns_example : write 8 0 at_six array (replicate 11 9) 11 ≡ none
write_overruns_example =
    write_overruns 8 at_six array (replicate 11 9) 11 array-IsBuffer (omega arith) (omega arith)

write_staged_overreads_example : write 8 4 staged_at_six array three 1 ≡ none
write_staged_overreads_example =
    write_staged_overreads 8 4 staged_at_six array three 1 array-IsBuffer refl (omega arith)
      (omega arith)

read_staged_overflows_example : read_into 8 4 staged_at_six array three 1 ≡ none
read_staged_overflows_example =
    read_staged_overflows 8 4 staged_at_six array three 1 array-IsBuffer refl (omega arith)
      (omega arith)

get_span-IsInside_example :
    (IsInside 8 (get_span_0 8 at_six) ↔ ◌≡◌ {A = ℕ} 6 0) × IsInside 8 (get_span_1 8 at_six)
get_span-IsInside_example = get_span-IsInside 8 at_six array array-IsBuffer

-- The index wraps between the first value and the second.
read-write_example : write_then_read 8 0 at_last at_last array three ≡ some (2, 2, three)
read-write_example = read-write 8 0 at_last at_last array three array-IsBuffer (omega arith) refl

read_overrun_example :
    write_twice_then_read 8 0 at_six at_six array array three
    ≡ some (10 ∷ 11 ∷ 12 ∷ 3 ∷ 4 ∷ 5 ∷ 6 ∷ 7 ∷ [])
read_overrun_example =
    read_overrun 8 0 at_six at_six array array three array-IsBuffer refl (omega arith) refl
