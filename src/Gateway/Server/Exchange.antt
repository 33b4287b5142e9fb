-- ===== src/Gateway/Server/Exchange.antt =====
-- A client that sends frames and then closes: the thread of src/os_layer/ipc/src/domain_socket.cpp
-- answers each request, in order.
use justice_flow.Base.{
  ℕ, zero, suc, ◌≤◌, ◌<◌, ◌^◌, ◌≡◌, ◌≢◌, refl, sym, ap, ◌∙◌, subst, Option, some, List, [], ◌∷◌,
  ◌++◌, append_assoc, Bytes, All, length, absurd, arith,
}
use justice_flow.Types.{ResultCode, ok}
use justice_flow.OsLayer.UnixSocket.{UnixSocket}
use justice_flow.Gateway.Frame.{
  RecvEvent, SendEvent, recv_frame, send_frame, encode_length, max_msg_bytes,
}
use justice_flow.Gateway.Frame.Transfer.{arriving, IsCalm}
use justice_flow.Gateway.Frame.RoundTrip.{Gives, frame_received, send_frame-done}
use justice_flow.Gateway.Handlers.{Env, Served, served, crashes, waits, ◌>>=◌}
use justice_flow.Gateway.Server.{
  closed, ends, goes_on, round_sent, round_served, round_received, serve_text, client_handler,
}
use justice_flow.Gateway.Server.Rounds.{Shrinks, recv_frame-Shrinks}

unfoldable pub frames : List Bytes → Bytes
frames [] = []
frames (text ∷ texts) = encode_length (length text) ++ (text ++ frames texts)

-- The responses to requests in their order, with the connection handed on.
unfoldable pub exchange : ℕ → (ℕ → Env) → List Bytes → UnixSocket → Served (List Bytes)
unfolding serve_text
exchange i env [] db = served []
exchange i env (text ∷ texts) db = do
  (out, db') ← serve_text (env i) text db
  outs ← exchange (suc i) env texts db'
  served (out ∷ outs)

abbrev pub IsMessage : Bytes → Type 0
IsMessage text = (0 < length text) × (length text ≤ max_msg_bytes)

-- Each response goes out with OK.
unfoldable pub AllSent : List Bytes → List SendEvent → Type 0
unfolding send_frame
AllSent [] sends = Unit
AllSent (out ∷ outs) sends =
    (length out < 2 ^ 32)
    × ((send_frame out sends).0 ≡ some ok)
    × AllSent outs (send_frame out sends).2

bind-served {ℓ κ} :
    {A : Type ℓ} {B : Type κ} (s : Served A) (f : A → Served B) (b : B)
    → s >>= f ≡ served b
    → (a : A) × (s ≡ served a) × (f a ≡ served b)
bind-served (served a) f b e = (a, refl, e)
bind-served crashes f b e = ground (arith, e)
bind-served waits f b e = ground (arith, e)

served-inj {ℓ} : {A : Type ℓ} {a b : A} → served a ≡ served b → a ≡ b
served-inj e = ground (arith, e)

exchange-first :
    (i : ℕ) (env : ℕ → Env) (text : Bytes) (texts : List Bytes) (db : UnixSocket)
    (outs : List Bytes)
    → exchange i env (text ∷ texts) db ≡ served outs
    → (r : Bytes × UnixSocket) × (rest : List Bytes) × (serve_text (env i) text db ≡ served r)
      × (exchange (suc i) env texts r.1 ≡ served rest)
      × (r.0 ∷ rest ≡ outs)
unfolding exchange
exchange-first i env text texts db outs e =
    let (r, first, later) = bind-served (serve_text (env i) text db) _ outs e in
    let (rest, second, same) = bind-served (exchange (suc i) env texts r.1) _ outs later in
    (r, rest, first, second, served-inj same)

-- At the end of what the client sent, the session is closed.
round-at_end :
    (env : Env) (r : ResultCode × Bytes × List RecvEvent) (sends : List SendEvent) (db : UnixSocket)
    → r.0 ≢ ok
    → round_received env r sends db ≡ ends closed []
unfolding round_received
round-at_end env (ok, json, recvs) sends db h = absurd (h refl)
round-at_end env (rc, json, recvs) sends db h = refl

frame_end : (recvs : List RecvEvent) → arriving recvs ≡ [] → (recv_frame recvs).0 ≢ ok
unfolding Shrinks
frame_end recvs h e =
    let none_left : length (arriving recvs) ≡ 0 = ap length h in
    omega (arith, none_left, recv_frame-Shrinks recvs e)

round_sent-ok :
    (r : Option ResultCode × Bytes × List SendEvent) (recvs : List RecvEvent) (db : UnixSocket)
    → r.0 ≡ some ok
    → round_sent r recvs db ≡ goes_on r.1 recvs r.2 db
unfolding round_sent
round_sent-ok r recvs db h = ap (λ rc. round_sent (rc, r.1, r.2) recvs db) h

round_received-ok :
    (env : Env) (r : ResultCode × Bytes × List RecvEvent) (json out : Bytes)
    (sends : List SendEvent) (db db' : UnixSocket)
    → r.0 ≡ ok
    → r.1 ≡ json
    → serve_text env json db ≡ served (out, db')
    → round_received env r sends db ≡ round_sent (send_frame out sends) r.2 db'
unfolding round_received round_served
round_received-ok env r json out sends db db' a b e =
    ap (λ rc. round_received env (rc, r.1, r.2) sends db) a
    ∙ ap (λ s. round_served s r.2 sends) (ap (λ t. serve_text env t db) b ∙ e)

-- A client whose requests arrive in frames and that then closes is sent the response of each
-- request, in order, and its connection is closed, where no request crashes the daemon or waits for
-- ever and each response goes out.
pub client_handler_answers :
    (texts : List Bytes) (fuel i : ℕ) (env : ℕ → Env) (recvs : List RecvEvent)
    (sends : List SendEvent) (db : UnixSocket) (outs : List Bytes)
    → length texts < fuel
    → All IsMessage texts
    → IsCalm recvs
    → arriving recvs ≡ frames texts
    → exchange i env texts db ≡ served outs
    → AllSent outs sends
    → client_handler fuel i env recvs sends db ≡ (closed, frames outs)
unfolding client_handler frames exchange AllSent Gives
client_handler_answers texts zero i env recvs sends db outs f ok_all calm here e all =
    absurd (omega (arith, f))
client_handler_answers [] (suc fuel) i env recvs sends db outs f ok_all calm here e all =
    rw (round-at_end (env i) (recv_frame recvs) sends db (frame_end recvs here), sym (served-inj e))
      refl
client_handler_answers (text ∷ texts) (suc fuel) i env recvs sends db outs f ok_all calm here e
      all =
    let (r, rest, first, later, same) = exchange-first i env text texts db outs e in
    let (a, b, c, d) = frame_received text (frames texts) recvs ok_all.0.0 ok_all.0.1 calm here in
    let all' : AllSent (r.0 ∷ rest) sends = subst (λ outs. AllSent outs sends) (sym same) all in
    let later' =
      client_handler_answers texts fuel (suc i) env (recv_frame recvs).2 (send_frame r.0 sends).2
        r.1 rest (omega (arith, f)) ok_all.1 d c later all'.2 in
    rw
      (
        sym same,
        round_received-ok (env i) (recv_frame recvs) text r.0 sends db r.1 a b first,
        round_sent-ok (send_frame r.0 sends) (recv_frame recvs).2 r.1 all'.1,
        later',
        send_frame-done r.0 sends all'.0 all'.1,
        append_assoc (encode_length (length r.0)) r.0 (frames rest),
      )
      refl
