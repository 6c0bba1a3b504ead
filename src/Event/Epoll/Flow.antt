-- ===== src/Event/Epoll/Flow.antt =====
-- The flags and data of an event on the way to the kernel and back.
use libckit.Common.{
  ℕ, ◌≡◌, ◌≢◌, refl, sym, ◌∙◌, List, [], ◌∷◌, Bool, false, arith, ◌==◌, ◌||◌, ◌&&◌,
}
use libckit.NodeList.Ring.{AreDistinct, IsFresh}
use libckit.Event.{Word, no_flags, set_flag, pass, Flags, event_types, Event}
use libckit.Event.Epoll.{event_to_epoll_event, epoll_event_to_event}

abbrev pub bits : Flags → List ℕ
bits f = f.input ∷ f.output ∷ f.hup ∷ f.rdhup ∷ f.edge ∷ f.oneshot ∷ []

-- the six tests that both functions make
abbrev chain : Flags → Flags → Word → Word
chain a b src =
    let w1 = pass a.input b.input src no_flags in
    let w2 = pass a.output b.output src w1 in
    let w3 = pass a.hup b.hup src w2 in
    let w4 = pass a.rdhup b.rdhup src w3 in
    let w5 = pass a.edge b.edge src w4 in pass a.oneshot b.oneshot src w5

pub pass-other : (a : ℕ) (src dst : Word) {b j : ℕ} → b ≢ j → pass a b src dst j ≡ dst j
unfolding pass set_flag
pass-other a src dst ne = ground arith

pub pass-at : (a : ℕ) (src dst : Word) {b : ℕ} → dst b ≡ false → pass a b src dst b ≡ src a
unfolding pass set_flag
pass-at a src dst off = ground arith

flip : {x y : ℕ} → x ≢ y → y ≢ x
flip n e = n (sym e)

chain-none : (a b : Flags) (src : Word) (j : ℕ) → IsFresh j (bits b) → chain a b src j ≡ false
chain-none a b src j (p1, (p2, (p3, (p4, (p5, (p6, t)))))) =
    pass-other _ _ _ (flip p6)
    ∙ pass-other _ _ _ (flip p5)
    ∙ pass-other _ _ _ (flip p4)
    ∙ pass-other _ _ _ (flip p3)
    ∙ pass-other _ _ _ (flip p2)
    ∙ pass-other _ _ _ (flip p1)

-- Each flag arrives as it was sent.
record Arrives (a b : Flags) (src dst : Word) : Type 0 where
  input : dst b.input ≡ src a.input
  output : dst b.output ≡ src a.output
  hup : dst b.hup ≡ src a.hup
  rdhup : dst b.rdhup ≡ src a.rdhup
  edge : dst b.edge ≡ src a.edge
  oneshot : dst b.oneshot ≡ src a.oneshot

chain-Arrives : (a b : Flags) (src : Word) → AreDistinct (bits b) → Arrives a b src (chain a b src)
chain-Arrives a b src
      (
        (n12, (n13, (n14, (n15, (n16, t))))),
        (
          (n23, (n24, (n25, (n26, t2)))),
          ((n34, (n35, (n36, t3))), ((n45, (n46, t4)), ((n56, t5), (t6, t7)))),
        ),
      ) =
    record {
      input =
          pass-other _ _ _ (flip n16)
          ∙ pass-other _ _ _ (flip n15)
          ∙ pass-other _ _ _ (flip n14)
          ∙ pass-other _ _ _ (flip n13)
          ∙ pass-other _ _ _ (flip n12)
          ∙ pass-at _ _ _ refl;
      output =
          pass-other _ _ _ (flip n26)
          ∙ pass-other _ _ _ (flip n25)
          ∙ pass-other _ _ _ (flip n24)
          ∙ pass-other _ _ _ (flip n23)
          ∙ pass-at _ _ _ (pass-other _ _ _ n12);
      hup =
          pass-other _ _ _ (flip n36)
          ∙ pass-other _ _ _ (flip n35)
          ∙ pass-other _ _ _ (flip n34)
          ∙ pass-at _ _ _ (pass-other _ _ _ n23 ∙ pass-other _ _ _ n13);
      rdhup =
          pass-other _ _ _ (flip n46)
          ∙ pass-other _ _ _ (flip n45)
          ∙ pass-at _ _ _ (pass-other _ _ _ n34 ∙ pass-other _ _ _ n24 ∙ pass-other _ _ _ n14);
      edge =
          pass-other _ _ _ (flip n56)
          ∙ pass-at _ _ _ (
              pass-other _ _ _ n45
              ∙ pass-other _ _ _ n35
              ∙ pass-other _ _ _ n25
              ∙ pass-other _ _ _ n15);
      oneshot = pass-at _ _ _ (
          pass-other _ _ _ n56
          ∙ pass-other _ _ _ n46
          ∙ pass-other _ _ _ n36
          ∙ pass-other _ _ _ n26
          ∙ pass-other _ _ _ n16);
    }

-- one of the six flags
abbrev pub is_event_type : ℕ → Bool
is_event_type j = 0 == j || 1 == j || 2 == j || 3 == j || 10 == j || 11 == j

event_types-AreDistinct : AreDistinct (bits event_types)
event_types-AreDistinct = (
  (omega arith, (omega arith, (omega arith, (omega arith, (omega arith, tt))))),
  (
    (omega arith, (omega arith, (omega arith, (omega arith, tt)))),
    (
      (omega arith, (omega arith, (omega arith, tt))),
      ((omega arith, (omega arith, tt)), ((omega arith, tt), (tt, tt))),
    ),
  ),
)

six_or_none :
    (src dst : Word) (j : ℕ)
    → dst 0 ≡ src 0
    → dst 1 ≡ src 1
    → dst 2 ≡ src 2
    → dst 3 ≡ src 3
    → dst 10 ≡ src 10
    → dst 11 ≡ src 11
    → (IsFresh j (bits event_types) → dst j ≡ false)
    → dst j ≡ (is_event_type j && src j)
six_or_none src dst j e0 e1 e2 e3 e10 e11 others = grind arith

-- If the six flags of epoll are distinct bits, then an event that goes through event_to_epoll_event
-- and back through epoll_event_to_event has its data unchanged, and of its flags just the six that
-- event.h names.
pub round_trip :
    (epoll : Flags) (ev : Event)
    → AreDistinct (bits epoll)
    → let back = epoll_event_to_event epoll (event_to_epoll_event epoll ev) in
      (back.bytes ≡ ev.bytes) × ((j : ℕ) → back.events j ≡ (is_event_type j && ev.events j))
unfolding event_to_epoll_event epoll_event_to_event
round_trip epoll ev distinct =
    let sent = chain event_types epoll ev.events in
    let there = chain-Arrives event_types epoll ev.events distinct in
    let back = chain-Arrives epoll event_types sent event_types-AreDistinct in
    let none_else = chain-none epoll event_types sent in
    (
      refl,
      λ j.
          six_or_none ev.events (chain epoll event_types sent) j (back.input ∙ there.input)
            (back.output ∙ there.output) (back.hup ∙ there.hup) (back.rdhup ∙ there.rdhup)
            (back.edge ∙ there.edge) (back.oneshot ∙ there.oneshot) (none_else j),
    )
