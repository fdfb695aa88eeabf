-- ===== src/FlowsClient/Replies.antt =====
-- Which datagram a transaction takes for its reply.
use inferno_esp32_p.FlowsClient.{Client, Failure, await_reply, transact, settle, timeout}
use inferno_esp32_p.Wire.{rd16}
use inferno_esp32_p.Prelude.{
  ℕ, ◌≡◌, List, Bool, length, some, suc, ◌∷◌, ◌≤◌, [], arith, inr, true, ◌<◌, ◌≢◌, get_elem?, ◌++◌,
  ◌⊎◌, take, zero, ◌∙◌, drop, le→ltb_false, ◌+◌, refl, Option, inl, none, if_split, ltb, not, ◌==◌,
  subst, sym,
}
use inferno_esp32_p.Prelude.Words.{inc16, inc32}
use mathlib.Core.Option.{some-injective, none-ne-some}
use mathlib.Core.Sum.{inl-ne-inr, inr-injective}

-- A datagram that names the request.
pub record Answers (seq opcode : ℕ) (p : List ℕ) : Type 0 where
  pub whole : 10 ≤ length p
  pub same_seq : rd16 p 4 ≡ seq
  pub same_opcode : rd16 p 6 ≡ opcode

-- A whole header that is for another request.
pub record Foreign (seq opcode : ℕ) (p : List ℕ) : Type 0 where
  pub whole : 10 ≤ length p
  pub other : (rd16 p 4 ≢ seq) ⊎ (rd16 p 6 ≢ opcode)

abbrev pub AllForeign : ℕ → ℕ → List (List ℕ) → Type 0
AllForeign seq opcode [] = Unit {0}
AllForeign seq opcode (p ∷ ps) = Foreign seq opcode p × AllForeign seq opcode ps

await_reply-Foreign :
    (fuel seq opcode : ℕ) (p : List ℕ) (rs : List (List ℕ))
    → Foreign seq opcode p
    → await_reply (suc fuel) seq opcode (p ∷ rs) ≡ await_reply fuel seq opcode rs
unfolding await_reply
await_reply-Foreign fuel seq opcode p rs f = ground arith

await_reply_answer :
    (fuel seq opcode : ℕ) (p : List ℕ) (rs : List (List ℕ))
    → Answers seq opcode p
    → await_reply (suc fuel) seq opcode (p ∷ rs) ≡ some p
unfolding await_reply
await_reply_answer fuel seq opcode p rs a = ground arith

await_reply_skips :
    (fuel seq opcode : ℕ) (before : List (List ℕ)) (p : List ℕ) (rs : List (List ℕ))
    → length before < fuel
    → AllForeign seq opcode before
    → Answers seq opcode p
    → await_reply fuel seq opcode (before ++ p ∷ rs) ≡ some p
await_reply_skips zero seq opcode before p rs h w a = absurd (omega arith)
await_reply_skips (suc fuel) seq opcode [] p rs h w a = await_reply_answer fuel seq opcode p rs a
await_reply_skips (suc fuel) seq opcode (q ∷ before) p rs h w a =
    await_reply-Foreign fuel seq opcode q (before ++ p ∷ rs) w.0
    ∙ await_reply_skips fuel seq opcode before p rs (omega arith) w.1 a

-- For a request of up to 502 bytes that is sent, a reply with the code OK is taken behind up to
-- three datagrams for other requests: its content is handed over, and only the sequence number has
-- moved.
pub transact_answered :
    (c : Client) (opcode room : ℕ) (body : List ℕ) (before : List (List ℕ)) (p : List ℕ)
    (rs : List (List ℕ))
    → length body ≤ 502
    → length before ≤ 3
    → AllForeign c.seq opcode before
    → Answers c.seq opcode p
    → rd16 p 8 ≡ 1
    → transact c opcode body true (before ++ p ∷ rs) room
      ≡ (record c { seq = inc16 c.seq }, inr (take room (drop 10 p)))
unfolding transact settle
transact_answered c opcode room body before p rs small few w a ok =
    let got = await_reply_skips 4 c.seq opcode before p rs (omega arith) w a in
    rw (le→ltb_false 512 (10 + length body) (omega arith), got, ok) refl

await_reply_sound :
    (fuel seq opcode : ℕ) (rs : List (List ℕ)) (p : List ℕ)
    → await_reply fuel seq opcode rs ≡ some p
    → Answers seq opcode p × ((j : ℕ) × (j < fuel) × (get_elem? rs j ≡ some p))
unfolding await_reply
await_reply_sound zero seq opcode rs p = λ h. absurd (none-ne-some p h)
await_reply_sound (suc fuel) seq opcode [] p = λ h. absurd (none-ne-some p h)
await_reply_sound (suc fuel) seq opcode (q ∷ rs) p =
    let P : Option (List ℕ) → Type 0 = λ o.
      o ≡ some p
      → Answers seq opcode p × ((j : ℕ) × (j < suc fuel) × (get_elem? (q ∷ rs) j ≡ some p)) in
    let later : P (await_reply fuel seq opcode rs) = λ e.
      let (a, (j, lt, at)) = await_reply_sound fuel seq opcode rs p e in
      (a, (suc j, omega arith, at)) in
    if_split P (ltb (length q) 10) (λ _ e. absurd (none-ne-some p e))
      (λ whole.
        if_split P (not (rd16 q 4 == seq)) (λ _. later)
          (λ same_seq.
            if_split P (not (rd16 q 6 == opcode)) (λ _. later)
              (λ same_op e.
                let here : Answers seq opcode q = record {
                  whole = ground arith;
                  same_seq = ground arith;
                  same_opcode = ground arith;
                } in
                (subst (Answers seq opcode) (some-injective q p e) here, (0, omega arith, e)))))

-- What a successful transaction has taken.
abbrev pub Taken : Client → ℕ → ℕ → List (List ℕ) → List ℕ → Type 0
Taken c opcode room rs out =
    (p : List ℕ) × Answers c.seq opcode p
    × ((j : ℕ) × (j < 4) × (get_elem? rs j ≡ some p))
    × (rd16 p 8 ≡ 1)
    × (out ≡ take room (drop 10 p))

settle-inr :
    (c : Client) (opcode room : ℕ) (p out : List ℕ)
    → (settle c opcode room p).1 ≡ inr out
    → (rd16 p 8 ≡ 1) × (out ≡ take room (drop 10 p))
unfolding settle
settle-inr c opcode room p out =
    let P : Client × (Failure ⊎ List ℕ) → Type 0 =
      λ x. x.1 ≡ inr out → (rd16 p 8 ≡ 1) × (out ≡ take room (drop 10 p)) in
    if_split P (not (rd16 p 8 == 1)) (λ _ e. absurd (inl-ne-inr e))
      (λ ok e. (ground arith, sym (inr-injective _ _ e)))

-- A transaction that succeeds has had, among the first four datagrams, one that names its request
-- with the code OK, and gives its content.
pub transact_sound :
    (c : Client) (opcode room : ℕ) (body : List ℕ) (sent : Bool) (rs : List (List ℕ)) (out : List ℕ)
    → (transact c opcode body sent rs room).1 ≡ inr out
    → (p : List ℕ) × Answers c.seq opcode p
      × ((j : ℕ) × (j < 4) × (get_elem? rs j ≡ some p))
      × (rd16 p 8 ≡ 1)
      × (out ≡ take room (drop 10 p))
unfolding transact settle
transact_sound c opcode room body sent rs out =
    let P : Client × (Failure ⊎ List ℕ) → Type 0 =
      λ x. x.1 ≡ inr out → Taken c opcode room rs out in
    if_split P (ltb 512 (10 + length body)) (λ _ e. absurd (inl-ne-inr e))
      (λ _.
        if_split P (not sent) (λ _ e. absurd (inl-ne-inr e))
          (λ _. replied (await_reply 4 c.seq opcode rs) refl))
  where
    replied :
        (o : Option (List ℕ))
        → await_reply 4 c.seq opcode rs ≡ o
        → (elim o as (λ _. Client × (Failure ⊎ List ℕ)) [
          | none ↦ (
            record c {
              seq = inc16 c.seq;
              last_opcode = opcode;
              last_code = 65535;
              timeouts = inc32 c.timeouts;
            },
            inl timeout,
          )
          | some p ↦ settle (record c { seq = inc16 c.seq }) opcode room p
        ]).1
          ≡ inr out
        → Taken c opcode room rs out
    replied none e h = absurd (inl-ne-inr h)
    replied (some p) e h =
        let (a, at) = await_reply_sound 4 c.seq opcode rs p e in
        let (ok, is) = settle-inr (record c { seq = inc16 c.seq }) opcode room p out h in
        (p, a, at, ok, is)
