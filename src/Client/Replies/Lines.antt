-- ===== src/Client/Replies/Lines.antt =====
-- A line of a reply is read whole, however the network cuts it.
use hybrid_ftp_socket.Prelude.{
  ℕ, Bytes, Bool, true, false, Option, some, List, [], ◌∷◌, ◌++◌, append_assoc, append-nil, ◌≡◌,
  inl, inr, refl, sym, ap, ◌∙◌, All, zero, suc, ◌<◌, ◌≤◌, length, length-append, take, arith,
}
use hybrid_ftp_socket.Control.Connection.Lines.{
  split_line, split_line-append, split_line_cases, split_line-line,
}
use hybrid_ftp_socket.Control.Connection.Framing.{concat, lines_of, IsChunk, IsLine}
use hybrid_ftp_socket.Storage.Paths.{startswith}
use hybrid_ftp_socket.Client.Replies.{
  Incoming, pending_from, pending, recv_until, recv_rest, recv_line_from, recv_line, recv_reply,
  has_more,
}

-- What is left to read.
abbrev pub remaining : Incoming → Bytes
remaining i = i.reply_buffer ++ concat i.chunks

-- A text has been read, and what follows it is still to come.
pub record IsRead (text rest : Bytes) (result : Option (Bytes × Incoming)) : Type 0 where
  pub left : Incoming
  pub got : result ≡ some (text, left)
  pub kept : remaining left ≡ rest
  pub solid : All IsChunk left.chunks

recv_line-buffered :
    (buffer : Bytes) (chunks : List Bytes) (line rest : Bytes)
    → split_line buffer ≡ some (line, rest)
    → recv_line_from buffer chunks
      ≡ some (line ++ (13 ∷ 10 ∷ []), record { reply_buffer = rest; chunks = chunks })
unfolding recv_line_from
recv_line-buffered buffer [] line rest e = rw (e, recv_line_from) refl
recv_line-buffered buffer (chunk ∷ later) line rest e = rw (e, recv_line_from) refl

recv_line-IsRead :
    (chunks : List Bytes) (buffer line rest : Bytes)
    → All IsChunk chunks
    → split_line (buffer ++ concat chunks) ≡ some (line, rest)
    → IsRead (line ++ (13 ∷ 10 ∷ [])) rest (recv_line_from buffer chunks)
unfolding recv_line_from
recv_line-IsRead [] buffer line rest h e =
    let here : split_line buffer ≡ some (line, rest) =
      ap split_line (sym (append-nil buffer)) ∙ e in
    record {
      left = record { reply_buffer = rest; chunks = [] };
      got = recv_line-buffered buffer [] line rest here;
      kept = append-nil rest;
      solid = tt;
    }
recv_line-IsRead ([] ∷ later) buffer line rest h e = absurd (h.0 refl)
recv_line-IsRead ((b ∷ chunk) ∷ later) buffer line rest h e = elim (split_line_cases buffer) [
  | inl n ↦
      let i =
        recv_line-IsRead later (buffer ++ (b ∷ chunk)) line rest h.1
          (ap split_line (append_assoc buffer (b ∷ chunk) (concat later)) ∙ e) in
      record { left = i.left; got = rw (n, recv_line_from) i.got; kept = i.kept; solid = i.solid }
  | inr (l, r, n) ↦
      let whole = split_line-append buffer ((b ∷ chunk) ++ concat later) l r n in
      let same : some (l, r ++ ((b ∷ chunk) ++ concat later)) ≡ some (line, rest) = sym whole ∙ e in
      let lines : l ≡ line = cc in
      record {
        left = record { reply_buffer = r; chunks = (b ∷ chunk) ∷ later };
        got =
            recv_line-buffered buffer ((b ∷ chunk) ∷ later) l r n
            ∙ ap
                (λ x.
                  some (
                    x ++ (13 ∷ 10 ∷ []),
                    record { reply_buffer = r; chunks = (b ∷ chunk) ∷ later },
                  ))
                lines;
        kept = cc;
        solid = h;
      }
]

-- The next line of what is left.
next-IsRead :
    (i : Incoming) (line rest : Bytes)
    → All IsChunk i.chunks
    → IsLine line
    → remaining i ≡ line ++ (13 ∷ 10 ∷ rest)
    → IsRead (line ++ (13 ∷ 10 ∷ [])) rest (recv_line i)
next-IsRead i line rest solid whole e =
    recv_line-IsRead i.chunks i.reply_buffer line rest solid
      (ap split_line e ∙ split_line-line line rest whole)

recv_until-IsRead :
    (middle : List Bytes) (last rest : Bytes) (fuel : ℕ) (is_last : Bytes → Bool) (i : Incoming)
    → All IsChunk i.chunks
    → All IsLine middle
    → All (λ line. is_last (line ++ (13 ∷ 10 ∷ [])) ≡ false) middle
    → IsLine last
    → is_last (last ++ (13 ∷ 10 ∷ [])) ≡ true
    → remaining i ≡ lines_of middle ++ (last ++ (13 ∷ 10 ∷ rest))
    → length middle < fuel
    → IsRead (lines_of middle ++ (last ++ (13 ∷ 10 ∷ []))) rest (recv_until fuel is_last i)
unfolding recv_until
recv_until-IsRead middle last rest zero is_last i solid whole other end terminal e enough =
    absurd (omega arith)
recv_until-IsRead [] last rest (suc fuel) is_last i solid whole other end terminal e enough =
    let r = next-IsRead i last rest solid end e in
    record {
      left = r.left;
      got = rw (r.got, recv_until, terminal) refl;
      kept = r.kept;
      solid = r.solid;
    }
recv_until-IsRead (line ∷ middle) last rest (suc fuel) is_last i solid whole other end terminal e
      enough =
    let r =
      next-IsRead i line (lines_of middle ++ (last ++ (13 ∷ 10 ∷ rest))) solid whole.0
        (e ∙ append_assoc line (13 ∷ 10 ∷ lines_of middle) (last ++ (13 ∷ 10 ∷ rest))) in
    let later =
      recv_until-IsRead middle last rest fuel is_last r.left r.solid whole.1 other.1 end terminal
        r.kept (omega arith) in
    record {
      left = later.left;
      got =
          rw (r.got, recv_until, other.0, later.got)
            (ap (λ t. some (t, later.left)) (regroup line middle last));
      kept = later.kept;
      solid = later.solid;
    }
  where
    regroup :
        (line : Bytes) (middle : List Bytes) (last : Bytes)
        → (line ++ (13 ∷ 10 ∷ [])) ++ (lines_of middle ++ (last ++ (13 ∷ 10 ∷ [])))
          ≡ (line ++ (13 ∷ 10 ∷ lines_of middle)) ++ (last ++ (13 ∷ 10 ∷ []))
    regroup line middle last =
        append_assoc line (13 ∷ 10 ∷ []) (lines_of middle ++ (last ++ (13 ∷ 10 ∷ [])))
        ∙ sym (append_assoc line (13 ∷ 10 ∷ lines_of middle) (last ++ (13 ∷ 10 ∷ [])))

-- What `recv` brings is what is left.
pending-remaining :
    (chunks : List Bytes) (buffer : Bytes) → pending_from buffer chunks ≡ buffer ++ concat chunks
unfolding pending_from
pending-remaining [] buffer = sym (append-nil buffer)
pending-remaining (chunk ∷ later) buffer =
    pending-remaining later (buffer ++ chunk) ∙ append_assoc buffer chunk (concat later)

length-lines_of :
    (lines : List Bytes) (rest : Bytes) → length lines ≤ length (lines_of lines ++ rest)
length-lines_of [] rest = omega arith
length-lines_of (line ∷ later) rest = omega (
  arith,
  length-append (lines_of (line ∷ later)) rest,
  length-append line (13 ∷ 10 ∷ lines_of later),
  length-append (lines_of later) rest,
  length-lines_of later rest,
)

-- A reply of one line is read whole, and what follows is left for the next reply.
recv_reply-IsRead :
    (i : Incoming) (line rest : Bytes)
    → All IsChunk i.chunks
    → IsLine line
    → has_more (line ++ (13 ∷ 10 ∷ [])) ≡ false
    → remaining i ≡ line ++ (13 ∷ 10 ∷ rest)
    → IsRead (line ++ (13 ∷ 10 ∷ [])) rest (recv_reply i)
unfolding recv_reply
recv_reply-IsRead i line rest solid whole single e =
    let r = next-IsRead i line rest solid whole e in
    record {
      left = r.left;
      got = rw (r.got, recv_reply, single) refl;
      kept = r.kept;
      solid = r.solid;
    }

-- A reply of several lines is read up to the first line that begins with its code and a space,
-- however the network cuts it into chunks that are not empty; what follows is left for the next
-- reply.
pub recv_reply_lines :
    (i : Incoming) (first : Bytes) (middle : List Bytes) (last rest : Bytes)
    → All IsChunk i.chunks
    → All IsLine (first ∷ middle)
    → IsLine last
    → has_more (first ++ (13 ∷ 10 ∷ [])) ≡ true
    → All
        (λ line.
          startswith (line ++ (13 ∷ 10 ∷ [])) (take 3 (first ++ (13 ∷ 10 ∷ [])) ++ (32 ∷ []))
          ≡ false)
        middle
    → startswith (last ++ (13 ∷ 10 ∷ [])) (take 3 (first ++ (13 ∷ 10 ∷ [])) ++ (32 ∷ [])) ≡ true
    → remaining i ≡ first ++ (13 ∷ 10 ∷ (lines_of middle ++ (last ++ (13 ∷ 10 ∷ rest))))
    → IsRead
        ((first ++ (13 ∷ 10 ∷ [])) ++ (lines_of middle ++ (last ++ (13 ∷ 10 ∷ []))))
        rest
        (recv_reply i)
unfolding recv_reply recv_rest
recv_reply_lines i first middle last rest solid whole end more other terminal e =
    let r = next-IsRead i first (lines_of middle ++ (last ++ (13 ∷ 10 ∷ rest))) solid whole.0 e in
    let enough : length middle < suc (length (pending r.left)) = omega (
      arith,
      ap length (pending-remaining r.left.chunks r.left.reply_buffer ∙ r.kept),
      length-lines_of middle (last ++ (13 ∷ 10 ∷ rest)),
    ) in
    let later =
      recv_until-IsRead middle last rest (suc (length (pending r.left)))
        (λ line. startswith line (take 3 (first ++ (13 ∷ 10 ∷ [])) ++ (32 ∷ []))) r.left r.solid
        whole.1 other end terminal r.kept enough in
    record {
      left = later.left;
      got = rw (r.got, recv_reply, more, recv_rest, later.got) refl;
      kept = later.kept;
      solid = later.solid;
    }
