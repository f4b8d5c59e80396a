-- ===== src/Server/Messages/Growth.antt =====
-- server.py: a handler writes behind what it has written.
use dist_res_engine.Base.{
  Extends, ℕ, ◌≡◌, sym, ap, ◌∙◌, Bool, false, List, [], ◌∷◌, ◌++◌, arith, Bool-cases, inl, inr,
  nat_eq, ◌==◌,
}
use mathlib.Core.List.{append-nil, append_assoc}
use dist_res_engine.Protocol.Wire.{Fields}
use dist_res_engine.Server.World.{World, log}
use dist_res_engine.Server.Events.{Event, connects, receives, drops, surroundings, step}
use dist_res_engine.Server.Preserves.Events.{run_round-keeps}
use dist_res_engine.Server.Messages.Sent.{IsKeptBySending, OfAll, Sending, Sending-IsSteady}

pub Extends-IsKept : (first : ℕ → List Fields) → IsKeptBySending (λ g. Extends (first g))
Extends-IsKept first = record {
  grows = λ g ms m c (more, e).
      (more ++ m ∷ [], ap (λ ns. ns ++ m ∷ []) e ∙ append_assoc (first g) more (m ∷ []));
}

-- The event begins the work of handler `g`.
abbrev pub starts : ℕ → Event → Bool
starts g (connects h address) = h == g
starts g _ = false

pub step-Extends :
    (e : Event) (w : World) (g : ℕ)
    → starts g e ≡ false
    → Extends (w.handlers g).sent ((step e w).handlers g).sent
unfolding step Sending OfAll log nat_eq
step-Extends (connects h address) w g other = elim (Bool-cases (w.handlers h).is_running) [
  | inl running ↦ rw running ([], sym (append-nil _))
  | inr idle ↦ rw idle ([], ground (arith, append-nil (w.handlers g).sent))
]
step-Extends (receives h r) w g other = elim (Bool-cases (w.handlers h).is_running) [
  | inl running ↦ rw running (
      run_round-keeps ((Sending-IsSteady (Extends-IsKept (λ f. (w.handlers f).sent))).working h) r w
        (λ f. ([], sym (append-nil _))) g)
  | inr idle ↦ rw idle ([], sym (append-nil _))
]
step-Extends (drops h) w g other = ([], ground (arith, append-nil (w.handlers g).sent))
step-Extends (surroundings env) w g other = ([], sym (append-nil _))
