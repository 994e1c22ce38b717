-- ===== src/Reader/Examples.antt =====
-- A replayer whose region begins at 9000 and a writer whose region begins at 4096; a receiver that finds
-- a header.
use scot.Base.{List, ◌%◌, ◌≡◌, refl, inl, inr, none, some, [], ◌∷◌, map, arith}
use scot.Entry.{SlotEntry}
use scot.Memory.{Mem, load16}
use scot.Log.{Log, next_message, get_next_aligned_idx, write_local_log}
use scot.Log.Carry.{carry, carry-IsDelivery}
use scot.Reader.{receiver_round}
use scot.Reader.Worker.{pause_loop, replayer_worker}
use scot.Reader.Stream.{rounds, ack_hashes}
use scot.Reader.Succession.{
  Way, place, leaves, Arrives, Replays, after_all, seen_of, replayer_worker-Succession,
}
use scot.Reader.Stale.{receiver_round-stale}

abbrev writer : Log
writer = record { next_free = 0; log = 4096; instn = 0 }

abbrev reader : Log
reader = record { next_free = 0; log = 9000; instn = 0 }

abbrev ack : SlotEntry
ack = record {
  next = 0;
  hashv = 7;
  ready = 1;
  blocked = 1;
  buffer = 100;
  buffer_sz = 5;
  key = 0;
  key_sz = 0;
  msg = 1;
}

abbrev bytes : Mem
bytes a = a % 251

abbrev zeros : Mem
zeros a = 0

-- Type HDRONLY everywhere.
abbrev eights : Mem
eights a = 8

receiver_round-stale_example :
    (g : Mem) × (receiver_round reader (eights ∷ [])
      ≡ some (none, next_message reader (load16 eights 9020), g))
    × (receiver_round (record reader { instn = 9 }) (g ∷ [])
        ≡ some (none, next_message (record reader { instn = 9 }) (load16 eights 9020), g))
receiver_round-stale_example =
    receiver_round-stale reader (record reader { instn = 9 }) eights [] refl refl refl

abbrev pure : SlotEntry
pure = record ack { hashv = 8; msg = 2 }

-- The first message, and the second one behind it in both regions.
abbrev first_written : Mem
first_written = (write_local_log writer bytes ack).1

abbrev first_way : Way
first_way = record {
  signals = 2 ∷ 0 ∷ [];
  ks = 3 ∷ 14 ∷ [];
  image = carry first_written zeros (place writer) (place reader);
}

abbrev first_left : Mem
first_left = leaves reader 5 first_way.image

abbrev writer_next : Log
writer_next = next_message writer 5

abbrev reader_next : Log
reader_next = next_message reader 5

abbrev next_way : Way
next_way = record {
  signals = 0 ∷ [];
  ks = 14 ∷ [];
  image =
      carry (write_local_log writer_next first_written pure).1 first_left (place writer_next)
        (place reader_next);
}

first-Arrives : Arrives writer reader bytes zeros ack first_way
unfolding next_message get_next_aligned_idx pause_loop
first-Arrives = record {
  fits = record { hashv = omega arith; buffer_sz = omega arith; msg = omega arith };
  small = omega arith;
  apart = inl (omega arith);
  type = inr refl;
  room = omega arith;
  delivery = carry-IsDelivery first_written zeros (place writer) (place reader) 14;
  seen = (omega arith, refl);
  passes = refl;
}

next-Arrives : Arrives writer_next reader_next first_written first_left pure next_way
unfolding next_message get_next_aligned_idx pause_loop
next-Arrives = record {
  fits = record { hashv = omega arith; buffer_sz = omega arith; msg = omega arith };
  small = omega arith;
  apart = inl (omega arith);
  type = inl refl;
  room = omega arith;
  delivery =
      carry-IsDelivery (write_local_log writer_next first_written pure).1 first_left
        (place writer_next) (place reader_next) 14;
  seen = refl;
  passes = refl;
}

abbrev two_messages : List (SlotEntry × Way)
two_messages = (ack, first_way) ∷ (pure, next_way) ∷ []

replayer_worker-Succession_example :
    (replayer_worker reader (rounds (map seen_of two_messages))
      ≡ ack_hashes (map seen_of two_messages))
    × Replays writer reader bytes (after_all reader zeros two_messages) two_messages
replayer_worker-Succession_example =
    replayer_worker-Succession writer reader bytes zeros two_messages refl (omega arith)
      (omega arith) (λ a le lt. refl) (first-Arrives, (next-Arrives, tt))
