-- ===== src/Rdt/Sender/Items.antt =====
-- What `enumerate(_lookahead(chunks))` gives: the chunks in order, numbered from 0, the last marked.
use hybrid_ftp_socket.Prelude.{
  ℕ, zero, suc, ◌+◌, Bytes, true, some, List, [], ◌∷◌, ◌≡◌, refl, arith, length, get_elem?, drop,
  ◌≤◌,
}
use hybrid_ftp_socket.Rdt.Sender.State.{Item, lookahead, lookahead_from}

-- The chunks that are sent: one empty chunk for an empty file.
abbrev pub chunks_sent : List Bytes → List Bytes
chunks_sent [] = [] ∷ []
chunks_sent (c ∷ cs) = c ∷ cs

-- The item at place `i` of a list that is numbered from `n`.
pub record IsItem (n : ℕ) (chunks : List Bytes) (i : ℕ) (item : Item) : Type 0 where
  pub number : item.seq_num ≡ n + i
  pub chunk : get_elem? chunks i ≡ some item.chunk
  pub last : item.is_last ≡ true → suc i ≡ length chunks
  pub more : suc i ≡ length chunks → item.is_last ≡ true

lookahead_from-IsItem :
    (n : ℕ) (c : Bytes) (cs : List Bytes) (i : ℕ) (item : Item)
    → get_elem? (lookahead_from n c cs) i ≡ some item
    → IsItem n (c ∷ cs) i item
unfolding lookahead_from
lookahead_from-IsItem n c [] zero item e = ground arith
lookahead_from-IsItem n c [] (suc i) item e = ground arith
lookahead_from-IsItem n c (d ∷ cs) zero item e = ground arith
lookahead_from-IsItem n c (d ∷ cs) (suc i) item e =
    let r = lookahead_from-IsItem (suc n) d cs i item e in
    record {
      number = omega (arith, r.number);
      chunk = r.chunk;
      last = λ t. omega (arith, r.last t);
      more = λ t. r.more (omega arith);
    }

pub lookahead-IsItem :
    (chunks : List Bytes) (i : ℕ) (item : Item)
    → get_elem? (lookahead chunks) i ≡ some item
    → IsItem 0 (chunks_sent chunks) i item
unfolding lookahead
lookahead-IsItem [] i item e = lookahead_from-IsItem 0 [] [] i item e
lookahead-IsItem (c ∷ cs) i item e = lookahead_from-IsItem 0 c cs i item e

length-lookahead_from :
    (n : ℕ) (c : Bytes) (cs : List Bytes) → length (lookahead_from n c cs) ≡ length (c ∷ cs)
unfolding lookahead_from
length-lookahead_from n c [] = refl
length-lookahead_from n c (d ∷ cs) = omega (arith, length-lookahead_from (suc n) d cs)

pub length-lookahead :
    (chunks : List Bytes) → length (lookahead chunks) ≡ length (chunks_sent chunks)
unfolding lookahead
length-lookahead [] = length-lookahead_from 0 [] []
length-lookahead (c ∷ cs) = length-lookahead_from 0 c cs

-- The bytes of the first `n` chunks.
unfoldable pub bytes_before : ℕ → List Bytes → ℕ
bytes_before zero cs = 0
bytes_before (suc n) [] = 0
bytes_before (suc n) (c ∷ cs) = length c + bytes_before n cs

pub bytes_before-suc :
    (n : ℕ) (cs : List Bytes) (c : Bytes)
    → get_elem? cs n ≡ some c
    → bytes_before (suc n) cs ≡ bytes_before n cs + length c
unfolding bytes_before
bytes_before-suc n [] c e = ground arith
bytes_before-suc zero (d ∷ cs) c e = ground arith
bytes_before-suc (suc n) (d ∷ cs) c e = omega (arith, bytes_before-suc n cs c e)

-- Where a suffix begins with `x`, `x` is the element at its place.
pub drop-cons {ℓ} :
    {A : Type ℓ} (n : ℕ) (xs : List A) (x : A) (rest : List A)
    → x ∷ rest ≡ drop n xs
    → (get_elem? xs n ≡ some x) × (rest ≡ drop (suc n) xs)
drop-cons zero [] x rest e = absurd (ground arith)
drop-cons zero (y ∷ ys) x rest e = (cc, cc)
drop-cons (suc n) [] x rest e = absurd (ground arith)
drop-cons (suc n) (y ∷ ys) x rest e = drop-cons n ys x rest e

pub drop-nil {ℓ} : {A : Type ℓ} (n : ℕ) (xs : List A) → [] ≡ drop n xs → length xs ≤ n
drop-nil zero [] e = omega arith
drop-nil zero (y ∷ ys) e = absurd (ground arith)
drop-nil (suc n) [] e = omega arith
drop-nil (suc n) (y ∷ ys) e = omega (arith, drop-nil n ys e)

-- The bytes of chunks, in all.
unfoldable pub total_length : List Bytes → ℕ
total_length [] = 0
total_length (c ∷ cs) = length c + total_length cs

bytes_before-length : (cs : List Bytes) → bytes_before (length cs) cs ≡ total_length cs
unfolding bytes_before total_length
bytes_before-length [] = refl
bytes_before-length (c ∷ cs) = omega (arith, bytes_before-length cs)

-- The empty chunk of an empty file adds nothing.
pub bytes_before_all :
    (chunks : List Bytes)
    → bytes_before (length (lookahead chunks)) (chunks_sent chunks) ≡ total_length chunks
unfolding total_length
bytes_before_all [] = rw (length-lookahead [], bytes_before-length ([] ∷ []), total_length)
bytes_before_all (c ∷ cs) = rw (length-lookahead (c ∷ cs)) (bytes_before-length (c ∷ cs))
