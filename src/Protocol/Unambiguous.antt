-- ===== src/Protocol/Unambiguous.antt =====
-- The bytes of a connection determine the messages.
use mathlib.Core.List.{append_assoc}
use dist_res_engine.Base.{◌≡◌, refl, sym, ap, ◌∙◌, List, [], ◌∷◌, ◌++◌, arith}
use dist_res_engine.Protocol.Wire.{Fields, obj, dumps}
use dist_res_engine.Protocol.Wire.Texts.{rest_of}
use dist_res_engine.Protocol.Wire.Unique.{dumps-Splits, first_of_obj}
use dist_res_engine.Protocol.{delimiter}
use dist_res_engine.Protocol.Stream.{stream}

stream_cons :
    (m : Fields) (ms : List Fields) → stream (m ∷ ms) ≡ dumps (obj m) ++ delimiter ∷ stream ms
unfolding stream
stream_cons m ms = append_assoc (dumps (obj m)) (delimiter ∷ []) (stream ms)

stream_nil : stream [] ≡ []
unfolding stream
stream_nil = refl

obj_fields : (m n : Fields) → obj m ≡ obj n → m ≡ n
obj_fields m n e = ground arith

-- The wire format is unambiguous: two lists of messages that are sent as the same bytes are the same
-- messages in the same order, whatever keys, texts, numbers and nested values are in them.
pub stream-injective : (ms ns : List Fields) → stream ms ≡ stream ns → ms ≡ ns
stream-injective [] [] e = refl
stream-injective [] (n ∷ ns) e =
    absurd (first_of_obj n _ (sym (stream_cons n ns) ∙ sym e ∙ stream_nil))
stream-injective (m ∷ ms) [] e = absurd (first_of_obj m _ (sym (stream_cons m ms) ∙ e ∙ stream_nil))
stream-injective (m ∷ ms) (n ∷ ns) e =
    let (same, rest) =
      dumps-Splits (obj m) (obj n) (delimiter ∷ stream ms) (delimiter ∷ stream ns) refl refl
        (sym (stream_cons m ms) ∙ e ∙ stream_cons n ns) in
    rw (obj_fields m n same, stream-injective ms ns (ap rest_of rest)) refl
