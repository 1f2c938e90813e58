-- ===== src/Ram/Tests.antt =====
-- The theorems about src/ram.cpp at concrete states, and runs of its functions.
use aarchvm.Base.{◌-◌, ◌%◌, ◌^◌, ◌≡◌, refl, some, none}
use aarchvm.Ram.{Ram, fresh_ram, put_bytes, get_bytes, read, read_fast, write_fast, fits}
use aarchvm.Ram.Access.{write_fast-read_fast}

abbrev small : Ram
small = fresh_ram 64

abbrev written : Ram
written = record small { bytes = put_bytes small.bytes 8 0x1122334455667788 8 }

accepted : write_fast small 8 0x1122334455667788 8 ≡ some written
unfolding write_fast fits
accepted = refl

read_test : read written 10 2 ≡ 0x5566
unfolding read read_fast fits get_bytes put_bytes
read_test = refl

refused_test : write_fast small 60 1 8 ≡ none
unfolding write_fast fits
refused_test = refl

-- The sum of the range test wraps: the access lies outside the array and is accepted.
wrapped_test : read_fast small (2 ^ 64 - 4) 8 ≡ some 0
unfolding read_fast fits get_bytes
wrapped_test = refl

write_fast-read_fast_example : read_fast written 8 8 ≡ some (0x1122334455667788 % 256 ^ 8)
write_fast-read_fast_example = write_fast-read_fast small written 8 0x1122334455667788 8 accepted
