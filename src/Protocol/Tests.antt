-- ===== src/Protocol/Tests.antt =====
-- The wire format on concrete messages.
use dist_res_engine.Base.{
  ℕ, take, drop, get_elem?, if◌then◌else◌, ◌==◌, option_eq, Option, some, none, arith, ◌≡◌, refl,
  nat_eq, ◌++◌, List, [], ◌∷◌,
}
use dist_res_engine.Protocol.Wire.{Fields, Json, num, str, obj, end, field, codes, dumps}
use dist_res_engine.Protocol.Unambiguous.{stream-injective}
use dist_res_engine.Protocol.Stream.{stream, receive_all, receive_all-stream}
use dist_res_engine.Protocol.{encode, FramedReader, chunk, message, disconnected}

dumps_ping :
    dumps (obj (field "id" (num 120) (field "action" (str "PING") end)))
    ≡ codes "{\"id\": 120, \"action\": \"PING\"}"
unfolding dumps nat_eq
dumps_ping = refl

dumps_text : dumps (str "é\n\"x\"") ≡ codes "\"\\u00e9\\n\\\"x\\\"\""
unfolding dumps nat_eq
dumps_text = refl

dumps_wide : dumps (str "😀") ≡ codes "\"\\ud83d\\ude00\""
unfolding dumps nat_eq
dumps_wide = refl

-- Two messages.
abbrev ping : Fields
ping = field "action" (str "PING") end

abbrev bye : Fields
bye = field "id" (num 12) (field "action" (str "LOGOUT") end)

abbrev both : List Fields
both = ping ∷ bye ∷ []

-- A decoder for these two: the first letter of the first key is an "a" or an "i".
abbrev loads_these : List ℕ → Option Json
loads_these bs =
    if get_elem? bs 2 == some 97
    then some (obj ping)
    else if get_elem? bs 2 == some 105
    then some (obj bye)
    else none

-- The bytes come in three pieces, cut inside the messages, and behind them an unfinished line.
abbrev in_pieces : FramedReader
in_pieces = record {
  incoming =
      chunk (take 5 (stream both))
      ∷ chunk (take 30 (drop 5 (stream both)))
      ∷ chunk (drop 35 (stream both) ++ 65 ∷ [])
      ∷ [];
  buffer = [];
}

receive_all-stream_example :
    receive_all loads_these 3 in_pieces ≡ message (obj ping) ∷ message (obj bye) ∷ disconnected ∷ []
unfolding dumps stream encode nat_eq option_eq
receive_all-stream_example =
    receive_all-stream loads_these both (65 ∷ []) in_pieces (refl, (refl, tt)) (omega arith, tt)
      (tt, refl)

stream-injective_example : both ≡ ping ∷ bye ∷ []
stream-injective_example = stream-injective both (ping ∷ bye ∷ []) refl
