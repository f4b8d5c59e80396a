-- ===== src/Server/Replies/Quiet.antt =====
-- server.py: calls that return and send nothing, and what follows them.
use dist_res_engine.Base.{
  ℕ, String, ◌<>◌, ◌≡◌, refl, ap, ◌∙◌, Bool, true, false, some, List, [], ◌∷◌, ◌++◌, arith, inl,
  inr, Bool-cases, if◌then◌else◌, ltb, string_eq, nat_eq,
}
use dist_res_engine.Base.Outcome.{Result, ok}
use dist_res_engine.DataLayer.{read_resource, write_resource, universal, entry, append_to}
use dist_res_engine.Protocol.Wire.{Json, Fields}
use dist_res_engine.EndToEnd.{response}
use dist_res_engine.Server.World.{
  World, M, Done, ◌>>=◌, modify, send, respond, set_reader, set_writer, log, try_acquire,
  register_session,
}
use dist_res_engine.Server.Handlers.{open_session, in_data_layer, start_reading, start_writing}

-- The socket of handler `h` is up, and the shared file is there.
pub record Ready (h : ℕ) (w : World) : Type 0 where
  pub connected : (w.handlers h).is_connected ≡ true
  pub text : String
  pub file : w.data_layer.file ≡ some text

-- A call that returns and writes nothing to the socket.
pub record Quiet (h : ℕ) {A : Type 0} (m : M A) : Type 0 where
  pub quiet :
      (w : World)
      → Ready h w
      → (a : A) × ((m w).0 ≡ ok a)
        × (((m w).1.handlers h).sent ≡ (w.handlers h).sent)
        × Ready h (m w).1

-- It has returned, and the response to request `i` was the first that it wrote to the socket.
abbrev pub Replied : ℕ → Json → World → Result Done × World → Type 0
Replied h i w (r, w') =
    (r ≡ ok tt)
    × ((status : String) × (fields : Fields) × (rest : List Fields) × ((w'.handlers h).sent
          ≡ (w.handlers h).sent ++ response i status fields ∷ rest))

pub record Replies (h : ℕ) (i : Json) (m : M Done) : Type 0 where
  pub replies : (w : World) → Ready h w → Replied h i w (m w)

module _ {h : ℕ} {i : Json} where
  pub Quiet-bind :
      {A : Type 0} {m : M A} {f : A → M Done}
      → Quiet h m
      → ((a : A) → Replies h i (f a))
      → Replies h i (m >>= f)
  Quiet-bind {m = m} {f = f} k l = record {
    replies = λ w v.
        let (a, e, same, v') = k.quiet w v in
        let (returned, (status, fields, rest, sent)) = (l a).replies (m w).1 v' in
        rw e (
          returned,
          (status, fields, rest, sent ∙ ap (λ ms. ms ++ response i status fields ∷ rest) same),
        );
  }

  pub respond-Replies :
      (status : String) (fields : Fields) → Replies h i (respond h i status fields)
  unfolding respond send nat_eq
  respond-Replies status fields = record {
    replies = λ w v. rw (v.connected) (refl, (status, fields, [], ground (arith, v.connected)));
  }

  pub if-Replies :
      (b : Bool) (m k : M Done) → Replies h i m → Replies h i k → Replies h i (if b then m else k)
  if-Replies true m k a c = a
  if-Replies false m k a c = c

module _ (h : ℕ) where
  modify-Quiet :
      (f : World → World)
      → ((w : World) → Ready h w → (((f w).handlers h).sent ≡ (w.handlers h).sent) × Ready h (f w))
      → Quiet h (modify f)
  modify-Quiet f k = record { quiet = λ w v. let (s, ready) = k w v in (tt, refl, s, ready) }

  same-Ready :
      (w w' : World)
      → ((w'.handlers h).is_connected ≡ (w.handlers h).is_connected)
      → w'.data_layer.file ≡ w.data_layer.file
      → Ready h w
      → Ready h w'
  same-Ready w w' e f v = record { connected = e ∙ v.connected; text = v.text; file = f ∙ v.file }

  pub try_acquire-Quiet : Quiet h try_acquire
  unfolding try_acquire
  try_acquire-Quiet = record {
    quiet = λ w v. elim (Bool-cases (ltb 0 w.sessions)) [
      | inl free ↦ rw free (true, refl, refl, same-Ready w _ refl refl v)
      | inr full ↦ rw full (false, refl, refl, v)
    ];
  }

  pub open_session-Quiet : (u n : String) → Quiet h (modify (open_session h u n))
  unfolding open_session register_session log
  open_session-Quiet u n =
      modify-Quiet _ (λ w v. (ground arith, same-Ready w _ (ground arith) refl v))

  pub set_reader-Quiet : (u : String) → Quiet h (modify (set_reader u false))
  unfolding set_reader
  set_reader-Quiet u = modify-Quiet _ (λ w v. (refl, same-Ready w _ refl refl v))

  pub set_writer-Quiet : (u : String) → Quiet h (modify (set_writer u false))
  unfolding set_writer
  set_writer-Quiet u = modify-Quiet _ (λ w v. (refl, same-Ready w _ refl refl v))

  pub read_resource-Quiet :
      (u : String) (granted : Bool)
      → Quiet h (in_data_layer (read_resource (start_reading u) granted))
  unfolding read_resource start_reading set_reader log
  read_resource-Quiet u true = record {
    quiet = λ w v. (
      (true, universal v.text, w.data_layer.version),
      ground (arith, v.file),
      ground (arith, v.file),
      same-Ready w _ (ground (arith, v.file)) (ground (arith, v.file)) v,
    );
  }
  read_resource-Quiet u false = record {
    quiet = λ w v. (_, refl, refl, same-Ready w _ refl refl v);
  }

  pub write_resource-Quiet :
      (u stamp text : String) (granted : Bool)
      → Quiet h (in_data_layer (write_resource (start_writing u) granted stamp u text))
  unfolding write_resource start_writing set_writer log
  write_resource-Quiet u stamp text true = record {
    quiet = λ w v. (
      _,
      refl,
      refl,
      record {
        connected = v.connected;
        text = v.text <> entry stamp u text;
        file = ap (λ o. append_to o (entry stamp u text)) v.file;
      },
    );
  }
  write_resource-Quiet u stamp text false = record {
    quiet = λ w v. (_, refl, refl, same-Ready w _ refl refl v);
  }
