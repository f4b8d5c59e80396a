-- ===== src/Server/Display/Requests.antt =====
-- server.py: what the status display shows when a request has been served, or has raised.
use dist_res_engine.Base.{
  ℕ, String, ◌≡◌, refl, ◌∙◌, ◌⊎◌, inl, inr, Bool, true, false, Option, none, some, List, [], ◌∷◌,
  arith, if◌then◌else◌, string_eq, option_eq, ◌==◌, Bool-cases, ==_self,
}
use dist_res_engine.Base.Outcome.{Result, ok, raised}
use dist_res_engine.DataLayer.{Reply, read_resource, write_resource, is_container}
use dist_res_engine.Protocol.{
  type_request, action_login, action_read, action_write, action_logout, action_ping,
}
use dist_res_engine.Protocol.Wire.{Json, Fields, get}
use dist_res_engine.Server.World.{
  World, M, Done, ◌>>◌, continue, modify, user_of, set_reader, set_writer, discard, log,
}
use dist_res_engine.Server.Handlers.{
  or_null, in_text, is_text, with_user, require_session, not_logged_in, answer_read, in_data_layer,
  start_reading, read_as, handle_read, answer_write, start_writing, write_as, content_of,
  handle_write, handle_ping, route, dispatch,
}
use dist_res_engine.Server.Preserves.{
  Preserves-bind, handle_login-Preserves, answer_read-Preserves, handle_logout-Preserves,
}
use dist_res_engine.Server.Display.{IsQuiet, IsQuiet-IsKept, Calm, respond-Calm, publish_event-Calm}

-- At most `u` is shown, as reading or as writing.
abbrev pub IsShown : String → World → Type 0
IsShown u w = ((w.readers ≡ []) ⊎ (w.readers ≡ u ∷ [])) × ((w.writer ≡ none) ⊎ (w.writer ≡ some u))

-- What a handler leaves behind it: a quiet display, or the raise of a call of the data layer, with
-- its user still shown.
abbrev pub IsLeft : ℕ → Result Done → World → Type 0
IsLeft h (ok _) w = IsQuiet w
IsLeft h (raised e) w = IsQuiet w ⊎ ((u : String) × (user_of w h ≡ some u) × IsShown u w)

Calm-IsLeft : (h : ℕ) (m : M Done) (w : World) → Calm m → IsQuiet w → IsLeft h (m w).0 (m w).1
Calm-IsLeft h m w c q = go (m w).0 (m w).1 (c.keeps w q)
  where
    go : (r : Result Done) (w' : World) → IsQuiet w' → IsLeft h r w'
    go (ok _) w' q = q
    go (raised e) w' q = inl q

answer_write-Calm :
    (h : ℕ) (i : Json) (u : String) (t : Json) (r : Reply) → Calm (answer_write h i u t r)
answer_write-Calm h i u t (true, text, version) =
    Preserves-bind (respond-Calm h i _ _) (λ _. publish_event-Calm _ _)
answer_write-Calm h i u t (false, text, version) = respond-Calm h i _ _

pub readers_off : (u : String) (rs : List String) → (rs ≡ []) ⊎ (rs ≡ u ∷ []) → discard u rs ≡ []
unfolding discard
readers_off u rs (inl e) = rw e refl
readers_off u rs (inr e) = rw e (rw (==_self u) refl)

pub writer_off :
    (u : String) (o : Option String)
    → (o ≡ none) ⊎ (o ≡ some u)
    → (if o == some u then none else o) ≡ none
writer_off u o (inl e) = rw e (ground arith)
writer_off u o (inr e) = rw (e, ==_self (some u)) refl

reader_cleared :
    (u : String) (w : World)
    → w.writer ≡ none
    → (w.readers ≡ []) ⊎ (w.readers ≡ u ∷ [])
    → IsQuiet (set_reader u false w)
unfolding set_reader
reader_cleared u w e f = (readers_off u w.readers f, e)

writer_cleared :
    (u : String) (w : World)
    → w.readers ≡ []
    → (w.writer ≡ none) ⊎ (w.writer ≡ some u)
    → IsQuiet (set_writer u false w)
unfolding set_writer
writer_cleared u w e f = (e, writer_off u w.writer f)

-- Behind a call of the data layer.
behind :
    (h : ℕ) (u : String) (clear : World → World) (answer : Reply → M Done) (r : Result Reply)
    (w : World)
    → user_of w h ≡ some u
    → IsShown u w
    → IsQuiet (clear w)
    → ((reply : Reply) → Calm (answer reply))
    → let o = continue (λ reply. modify clear >> answer reply) r w in IsLeft h o.0 o.1
behind h u clear answer (ok reply) w user shown q c =
    Calm-IsLeft h (answer reply) (clear w) (c reply) q
behind h u clear answer (raised e) w user shown q c = inr (u, user, shown)

reading-IsShown :
    (h : ℕ) (u : String) (g : Bool) (w : World)
    → IsQuiet w
    → let w' = (in_data_layer (read_resource (start_reading u) g) w).1 in
      (user_of w' h ≡ user_of w h)
      × (w'.writer ≡ none)
      × ((w'.readers ≡ []) ⊎ (w'.readers ≡ u ∷ []))
unfolding read_resource start_reading set_reader log
reading-IsShown h u g w q = ground (arith, q)

writing-IsShown :
    (h : ℕ) (u stamp text : String) (g : Bool) (w : World)
    → IsQuiet w
    → let w' = (in_data_layer (write_resource (start_writing u) g stamp u text) w).1 in
      (user_of w' h ≡ user_of w h) × (w'.readers ≡ []) × ((w'.writer ≡ none) ⊎ (w'.writer ≡ some u))
unfolding write_resource start_writing set_writer log
writing-IsShown h u stamp text g w q = ground (arith, q)

read_as-IsLeft :
    (h : ℕ) (i : Json) (u : String) (w : World)
    → user_of w h ≡ some u
    → IsQuiet w
    → IsLeft h (read_as h i u w).0 (read_as h i u w).1
unfolding read_as
read_as-IsLeft h i u w user q =
    let o = in_data_layer (read_resource (start_reading u) w.env.granted) w in
    let (same, writer, readers) = reading-IsShown h u w.env.granted w q in
    behind h u (set_reader u false) (answer_read h i) o.0 o.1 (same ∙ user) (readers, inl writer)
      (reader_cleared u o.1 writer readers) (answer_read-Preserves (IsQuiet-IsKept h) i)

write_as-IsLeft :
    (h : ℕ) (i : Json) (u : String) (t : Json) (w : World)
    → user_of w h ≡ some u
    → IsQuiet w
    → IsLeft h (write_as h i u t w).0 (write_as h i u t w).1
unfolding write_as
write_as-IsLeft h i u t w user q =
    let stamp = w.env.strftime "%Y-%m-%d %H:%M:%S" in
    let o =
      in_data_layer (write_resource (start_writing u) w.env.granted stamp u (in_text w.env t)) w in
    let (same, readers, writer) = writing-IsShown h u stamp (in_text w.env t) w.env.granted w q in
    behind h u (set_writer u false) (answer_write h i u t) o.0 o.1 (same ∙ user)
      (inl readers, writer) (writer_cleared u o.1 readers writer) (answer_write-Calm h i u t)

with_user-IsLeft :
    (h : ℕ) (missing : M Done) (body : String → M Done) (o : Option String) (w : World)
    → user_of w h ≡ o
    → Calm missing
    → IsQuiet w
    → ((u : String) → user_of w h ≡ some u → IsLeft h (body u w).0 (body u w).1)
    → IsLeft h (with_user missing body o w).0 (with_user missing body o w).1
with_user-IsLeft h missing body none w e c q k = Calm-IsLeft h missing w c q
with_user-IsLeft h missing body (some u) w e c q k = k u e

handle_read-IsLeft :
    (h : ℕ) (i : Json) (w : World)
    → IsQuiet w
    → IsLeft h (handle_read h i w).0 (handle_read h i w).1
unfolding handle_read require_session
handle_read-IsLeft h i w q =
    with_user-IsLeft h (not_logged_in h i) (read_as h i) (user_of w h) w refl (respond-Calm h i _ _)
      q (λ u e. read_as-IsLeft h i u w e q)

handle_write-IsLeft :
    (h : ℕ) (i : Json) (m : Fields) (w : World)
    → IsQuiet w
    → IsLeft h (handle_write h i m w).0 (handle_write h i m w).1
unfolding handle_write require_session
handle_write-IsLeft h i m w q =
    with_user-IsLeft h (not_logged_in h i) (λ u. write_as h i u (content_of m)) (user_of w h) w refl
      (respond-Calm h i _ _) q (λ u e. write_as-IsLeft h i u (content_of m) w e q)

if-IsLeft :
    (h : ℕ) (b : Bool) (m k : M Done) (w : World)
    → IsLeft h (m w).0 (m w).1
    → IsLeft h (k w).0 (k w).1
    → IsLeft h ((if b then m else k) w).0 ((if b then m else k) w).1
if-IsLeft h true m k w p q = p
if-IsLeft h false m k w p q = q

route-IsLeft :
    (h : ℕ) (i : Json) (a : Option Json) (m : Fields) (w : World)
    → IsQuiet w
    → IsLeft h (route h i a m w).0 (route h i a m w).1
unfolding route handle_ping
route-IsLeft h i a m w q =
    if-IsLeft h (is_text action_login a) _ _ w
      (Calm-IsLeft h _ w (handle_login-Preserves (IsQuiet-IsKept h) i m) q)
      (if-IsLeft h (is_text action_read a) _ _ w (handle_read-IsLeft h i w q) (
        if-IsLeft h (is_text action_write a) _ _ w (handle_write-IsLeft h i m w q) (
          if-IsLeft h (is_text action_logout a) _ _ w
            (Calm-IsLeft h _ w (handle_logout-Preserves (IsQuiet-IsKept h) i) q)
            (if-IsLeft h (is_text action_ping a) _ _ w (Calm-IsLeft h _ w (respond-Calm h i _ _) q)
              (if-IsLeft h (is_container (or_null a)) _ _ w (inl q)
                (Calm-IsLeft h _ w (respond-Calm h i _ _) q))))))

pub dispatch-IsLeft :
    (h : ℕ) (m : Fields) (w : World) → IsQuiet w → IsLeft h (dispatch h m w).0 (dispatch h m w).1
unfolding dispatch
dispatch-IsLeft h m w q = elim (Bool-cases (is_text type_request (get "type" m))) [
  | inr e ↦ rw e q
  | inl e ↦ rw e (route-IsLeft h _ (get "action" m) m w q)
]
