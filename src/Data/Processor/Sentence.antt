-- ===== src/Data/Processor/Sentence.antt =====
-- include/data/processor/Processor.hpp: a sentence is formatted into `m_buffer`, appended to
-- `m_processed`, and followed by its checksum.
use virtual_flight_radar_bac.Common.{ℕ, ◌≡◌, refl, [], ◌∷◌, ◌++◌, take}
use virtual_flight_radar_bac.Common.Text.{Str, codes}
use virtual_flight_radar_bac.Common.Print.{show_hex}
use virtual_flight_radar_bac.Math.{checksum_bits}

-- sizeof(m_buffer) - 1: `snprintf` keeps one byte for the NUL.
abbrev pub buffer_room : ℕ
buffer_room = 4095

-- The text that `snprintf` leaves in `m_buffer`.
unfoldable pub buffered : Str → Str
buffered s = take buffer_room s

-- `finishSentence`: the checksum of the buffer, which ends at its NUL.
unfoldable pub finish_sentence : Str → Str
finish_sentence buffer = show_hex 2 (checksum_bits (buffer ++ 0 ∷ [])) ++ codes "\r\n"

-- `m_processed.append(m_buffer); finishSentence();` after `snprintf` has written `body`.
unfoldable pub sentence : Str → Str
sentence body = buffered body ++ finish_sentence (buffered body)

sentence_test :
    sentence (codes "$PFLAU,,,,1,0,-180,0,10,0,AAAAAA*")
    ≡ codes "$PFLAU,,,,1,0,-180,0,10,0,AAAAAA*5a\r\n"
unfolding sentence buffered finish_sentence show_hex checksum_bits
sentence_test = refl
