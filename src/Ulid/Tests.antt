-- ===== src/Ulid/Tests.antt =====
-- Runs of the model of waitbus/_ulid.py.
use waitbus.Prelude.{◌≡◌, refl, true, none, some, arith}
use waitbus.Ulid.{max_rand, text_of, new, decode_timestamp_ms, State}
use waitbus.Ulid.Order.{lt_text, lt_text-new, decode_timestamp_ms-new}

abbrev start : State
start = record { last_ms = 0; last_rand = 0 }

abbrev first : State
first = record { last_ms = 1700000000000; last_rand = 31 }

abbrev second : State
second = record { last_ms = 1700000000000; last_rand = 32 }

to_first : new 1700000000000 31 start ≡ (some (text_of 1700000000000 31), first)
unfolding new
to_first = refl

-- In the same millisecond what was drawn is not used.
to_second : new 1700000000000 5 first ≡ (some (text_of 1700000000000 32), second)
unfolding new
to_second = refl

-- The suffix does not wrap around.
overflow :
    new 7 0 (record { last_ms = 7; last_rand = max_rand })
    ≡ (none, record { last_ms = 7; last_rand = max_rand })
unfolding new
overflow = refl

lt_text-new_example : lt_text (text_of 1700000000000 31) (text_of 1700000000000 32) ≡ true
lt_text-new_example =
    lt_text-new 1700000000000 1700000000000 31 5 start first second _ _ to_first to_second
      (omega arith) (omega arith) (omega arith)

decode_timestamp_ms-new_example :
    decode_timestamp_ms (text_of 1700000000000 31) ≡ some 1700000000000
decode_timestamp_ms-new_example =
    decode_timestamp_ms-new 1700000000000 31 start first _ to_first (omega arith)
