-- ===== src/Rdt/Sender/Window.antt =====
-- The window holds consecutive packets: what it holds, what filling adds to it, and what a
-- cumulative acknowledgement takes from it.
use hybrid_ftp_socket.Prelude.{
  ℕ, suc, ◌+◌, ◌≤◌, Bytes, Option, none, some, List, [], ◌∷◌, ◌++◌, ◌≡◌, arith, length, get_elem?,
  leb, inl, inr, Bool-cases, subst,
}
use hybrid_ftp_socket.Prelude.Outcome.{ok}
use hybrid_ftp_socket.Rdt.Sender.State.{Item, lookahead, Slot, pop_acked}
use hybrid_ftp_socket.Rdt.Sender.Items.{
  chunks_sent, lookahead-IsItem, bytes_before, bytes_before-suc,
}
use hybrid_ftp_socket.Rdt.Sender.{data_packet}

-- The packets that are acknowledged: the number after `last_acked`.
abbrev pub base : Option ℕ → ℕ
base none = 0
base (some last) = suc last

module _ (crc32 : Bytes → ℕ) (id : ℕ) (chunks : List Bytes) where
  -- The slot holds the packet of the item of number `k`.
  pub record IsSlot (k : ℕ) (slot : Slot) : Type 0 where
    pub item : Item
    pub number : slot.seq_num ≡ k
    pub holds : get_elem? (lookahead chunks) k ≡ some item
    pub made : data_packet crc32 id item ≡ ok slot.packet_data
    pub measured : slot.chunk_length ≡ length item.chunk

  -- The slots hold the packets `k`, `k + 1` and so on.
  abbrev pub IsWindow : ℕ → List Slot → Type 0
  IsWindow k [] = Unit
  IsWindow k (slot ∷ window) = IsSlot k slot × IsWindow (suc k) window

  pub IsWindow-append :
      (k : ℕ) (window : List Slot) (slot : Slot)
      → IsWindow k window
      → IsSlot (k + length window) slot
      → IsWindow k (window ++ slot ∷ [])
  IsWindow-append k [] slot w s = (subst (λ n. IsSlot n slot) (omega arith) s, tt)
  IsWindow-append k (x ∷ window) slot w s =
      (w.0, IsWindow-append (suc k) window slot w.1 (subst (λ n. IsSlot n slot) (omega arith) s))

  -- What is left when the packets up to `a` are popped.
  pub record Popped (k a : ℕ) (window : List Slot) (popped : List Slot × ℕ) : Type 0 where
    pub held : IsWindow (suc a) popped.0
    pub left : suc a + length popped.0 ≡ k + length window
    pub bytes :
        bytes_before k (chunks_sent chunks) + popped.1 ≡ bytes_before (suc a) (chunks_sent chunks)

  -- The number and the length of the item in a slot.
  slot_bytes :
      {k : ℕ} {slot : Slot}
      → IsSlot k slot
      → bytes_before (suc k) (chunks_sent chunks)
        ≡ bytes_before k (chunks_sent chunks) + slot.chunk_length
  slot_bytes {k} {slot} s = omega (
    arith,
    bytes_before-suc k (chunks_sent chunks) (s.item).chunk
        (lookahead-IsItem chunks k s.item s.holds).chunk,
    s.measured,
  )

  Popped-first :
      {k a : ℕ} {slot : Slot} {window : List Slot} {popped : List Slot × ℕ}
      → IsSlot k slot
      → k ≤ a
      → Popped (suc k) a window popped
      → Popped k a (slot ∷ window) (popped.0, slot.chunk_length + popped.1)
  Popped-first s h p = record {
    held = p.held;
    left = omega (arith, p.left);
    bytes = omega (arith, p.bytes, slot_bytes s);
  }

  pub pop_acked-Popped :
      (k a : ℕ) (window : List Slot)
      → k ≤ suc a
      → suc a ≤ k + length window
      → IsWindow k window
      → Popped k a window (pop_acked a window)
  unfolding pop_acked
  pop_acked-Popped k a [] h₁ h₂ w =
      let e : k ≡ suc a = omega arith in
      record { held = tt; left = omega arith; bytes = rw e (omega arith) }
  pop_acked-Popped k a (slot ∷ window) h₁ h₂ w = elim (Bool-cases (leb slot.seq_num a)) [
    | inl t ↦ rw t (
        Popped-first w.0 (ground (arith, (w.0).number))
          (pop_acked-Popped (suc k) a window (ground (arith, (w.0).number)) (omega arith) w.1))
    | inr f ↦
        let e : k ≡ suc a = ground (arith, (w.0).number) in
        rw f (record {
          held = subst (λ n. IsWindow n (slot ∷ window)) e w;
          left = omega arith;
          bytes = rw e (omega arith);
        })
  ]
