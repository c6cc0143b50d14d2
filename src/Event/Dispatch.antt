-- ===== src/Event/Dispatch.antt =====
-- Event::handleEvent (src/reactor/Event.cpp): which callbacks run.
use generic_server.Prelude.{
  ◌≡◌, refl, Bool, true, false, not, ◌&&◌, ◌||◌, ◌⊎◌, Option, Bool-cases, inl, inr,
}
use generic_server.Event.Defs.{
  no_events, Host, call, on_hup, on_err, on_rdhup, on_input, on_output, handle_event,
}

module _ {ℓ} {S : Type ℓ} (h : Host S) (s : S) where
  -- The peer hung up and there is nothing left to read.
  abbrev pub hung_up : Bool
  hung_up = (h.revents_of s).hup && not (h.revents_of s).input

  hup_yes : hung_up ≡ true → on_hup h s ≡ call h.close_callback s
  unfolding on_hup
  hup_yes e = rw e

  hup_no : hung_up ≡ false → on_hup h s ≡ s
  unfolding on_hup
  hup_no e = rw e

  err_yes : (h.revents_of s).err ≡ true → on_err h s ≡ call h.error_callback s
  unfolding on_err
  err_yes e = rw e

  err_no : (h.revents_of s).err ≡ false → on_err h s ≡ s
  unfolding on_err
  err_no e = rw e

  rdhup_yes : (h.revents_of s).rdhup ≡ true → on_rdhup h s ≡ call h.close_callback s
  unfolding on_rdhup
  rdhup_yes e = rw e

  rdhup_no : (h.revents_of s).rdhup ≡ false → on_rdhup h s ≡ s
  unfolding on_rdhup
  rdhup_no e = rw e

  input_none : h.revents_of s ≡ no_events → on_input h s ≡ s
  unfolding on_input
  input_none e = rw e

  output_none : h.revents_of s ≡ no_events → on_output h s ≡ s
  unfolding on_output
  output_none e = rw e

-- A callback runs where its condition holds, and nothing happens where it does not.
abbrev pub RunsIf {ℓ} : {S : Type ℓ} → Bool → Option (S → S) → S → S → Type ℓ
RunsIf b f s t = ((b ≡ true) × (t ≡ call f s)) ⊎ ((b ≡ false) × (t ≡ s))

-- What handleEvent does from s to t: a reason to close is received and only the callback for it
-- runs, or there is none: the read callback runs if EPOLLIN or EPOLLPRI is received, and then the
-- write callback if EPOLLOUT is received by that time.
pub data Dispatched {ℓ} {S : Type ℓ} (h : Host S) (s : S) (t : S) : Type ℓ where
  hung :
      hung_up h s ≡ true → t ≡ h.with_revents no_events (call h.close_callback s) → Dispatched h s t
  failed :
      hung_up h s ≡ false
      → (h.revents_of s).err ≡ true
      → t ≡ h.with_revents no_events (call h.error_callback s)
      → Dispatched h s t
  closed :
      hung_up h s ≡ false
      → (h.revents_of s).err ≡ false
      → (h.revents_of s).rdhup ≡ true
      → t ≡ h.with_revents no_events (call h.close_callback s)
      → Dispatched h s t
  served :
      hung_up h s ≡ false
      → (h.revents_of s).err ≡ false
      → (h.revents_of s).rdhup ≡ false
      → (u v : S) → RunsIf ((h.revents_of s).input || (h.revents_of s).pri) h.read_callback s u
      → RunsIf (h.revents_of u).output h.write_callback u v
      → t ≡ h.with_revents no_events v
      → Dispatched h s t

module _ {ℓ} {S : Type ℓ} (h : Host S) (s : S) where
  on_input-RunsIf :
      RunsIf ((h.revents_of s).input || (h.revents_of s).pri) h.read_callback s (on_input h s)
  unfolding on_input
  on_input-RunsIf = elim (Bool-cases ((h.revents_of s).input || (h.revents_of s).pri)) [
    | inl e ↦ inl (e, rw e refl)
    | inr e ↦ inr (e, rw e refl)
  ]

  on_output-RunsIf : RunsIf (h.revents_of s).output h.write_callback s (on_output h s)
  unfolding on_output
  on_output-RunsIf = elim (Bool-cases (h.revents_of s).output) [
    | inl e ↦ inl (e, rw e refl)
    | inr e ↦ inr (e, rw e refl)
  ]

module _ {ℓ} {S : Type ℓ} (h : Host S) where
  in_turn :
      (s : S)
      → handle_event h s
        ≡ h.with_revents no_events (on_output h (on_input h (on_rdhup h (on_err h (on_hup h s)))))
  unfolding handle_event
  in_turn s = refl

  rest_none : (t : S) → h.revents_of t ≡ no_events → on_output h (on_input h (on_rdhup h t)) ≡ t
  rest_none t q =
      let r : (h.revents_of t).rdhup ≡ false = rw q in
      rw (rdhup_no h t r) (rw (input_none h t q) (output_none h t q))

  all_none :
      (t : S) → h.revents_of t ≡ no_events → on_output h (on_input h (on_rdhup h (on_err h t))) ≡ t
  all_none t q = let r : (h.revents_of t).err ≡ false = rw q in rw (err_no h t r) (rest_none t q)

  -- The callbacks for closing clear the received events, as handleClose of a connection does.
  module _ (s : S) (closes : (s : S) → h.revents_of (call h.close_callback s) ≡ no_events)
      (fails : (s : S) → h.revents_of (call h.error_callback s) ≡ no_events) where
    -- handleEvent runs at most one of the callbacks for closing, and none of the others after it,
    -- when these two clear the received events; without a reason to close it runs the read callback
    -- exactly if EPOLLIN or EPOLLPRI is received, and after it the write callback exactly if
    -- EPOLLOUT is received by that time.
    pub handle_event-Dispatched : Dispatched h s (handle_event h s)
    handle_event-Dispatched = elim (Bool-cases (hung_up h s)) [
      | inl e ↦ hung e (rw (in_turn s) (rw (hup_yes h s e) (rw (all_none _ (closes s)))))
      | inr e ↦ elim (Bool-cases (h.revents_of s).err) [
        | inl f ↦
            failed e f
              (rw (in_turn s) (rw (hup_no h s e) (rw (err_yes h s f) (rw (rest_none _ (fails s))))))
        | inr f ↦ elim (Bool-cases (h.revents_of s).rdhup) [
          | inl r ↦ closed e f r (
              rw (in_turn s) (
                rw (hup_no h s e) (
                  rw (err_no h s f) (
                    rw (rdhup_yes h s r)
                      (rw (input_none h _ (closes s)) (rw (output_none h _ (closes s))))))))
          | inr r ↦
              served e f r (on_input h s) (on_output h (on_input h s)) (on_input-RunsIf h s)
                (on_output-RunsIf h (on_input h s))
                (rw (in_turn s) (rw (hup_no h s e) (rw (err_no h s f) (rw (rdhup_no h s r)))))
        ]
      ]
    ]
