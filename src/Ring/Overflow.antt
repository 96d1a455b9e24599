-- ===== src/Ring/Overflow.antt =====
-- The buffer once its sequence numbers are used up.
use shelly.Prelude.{
  ℕ, zero, suc, ◌+◌, ◌≤◌, ◌<◌, ◌≡◌, refl, List, [], ◌∷◌, none, some, arith, leb, length, leb→le,
  Bool-cases, inl, inr,
}
use shelly.Ring.{PtyRingBuffer, push, push_bytes, replay_from, u64_max}
use shelly.Ring.Window.{push_all}

-- The state that `push` leaves when the next sequence number does not fit 64 bits.
pub record IsPoisoned (r : PtyRingBuffer) : Type 0 where
  pub start : r.start_seq ≡ u64_max
  pub next : r.next_seq ≡ u64_max
  pub empty : r.bytes ≡ []

push_bytes-IsPoisoned :
    (r : PtyRingBuffer) (b : ℕ) (bs : List ℕ)
    → u64_max < r.next_seq + length (b ∷ bs)
    → IsPoisoned (push_bytes r (b ∷ bs))
unfolding push_bytes
push_bytes-IsPoisoned r b bs h = elim (Bool-cases (leb (r.next_seq + length (b ∷ bs)) u64_max)) [
  | inl fits ↦ absurd (omega (arith, leb→le (r.next_seq + length (b ∷ bs)) u64_max fits))
  | inr over ↦ rw (over, push_bytes) (record { start = refl; next = refl; empty = refl })
]

-- A chunk past the last sequence number poisons the buffer.
pub push-IsPoisoned :
    (r : PtyRingBuffer) (pushed : List ℕ)
    → u64_max < r.next_seq + length pushed
    → r.next_seq ≤ u64_max
    → IsPoisoned (push r pushed).0
unfolding push
push-IsPoisoned r [] h le = absurd (omega arith)
push-IsPoisoned r (b ∷ bs) h le = push_bytes-IsPoisoned r b bs h

-- Nothing that is pushed later repairs it.
push-IsPoisoned_again :
    (r : PtyRingBuffer) (pushed : List ℕ) → IsPoisoned r → IsPoisoned (push r pushed).0
unfolding push
push-IsPoisoned_again r [] p = unfold push_bytes in p
push-IsPoisoned_again r (b ∷ bs) p = push_bytes-IsPoisoned r b bs (omega (arith, p.next))

push_all-IsPoisoned :
    (r : PtyRingBuffer) (chunks : List (List ℕ)) → IsPoisoned r → IsPoisoned (push_all r chunks)
unfolding push_all
push_all-IsPoisoned r [] p = p
push_all-IsPoisoned r (chunk ∷ chunks) p =
    push_all-IsPoisoned (push r chunk).0 chunks (push-IsPoisoned_again r chunk p)

-- No output that follows can be replayed from a position below the last number.
replay_from-poisoned :
    (r : PtyRingBuffer) (pushed : List ℕ) (chunks : List (List ℕ)) (cut seq : ℕ)
    → r.next_seq ≤ u64_max
    → u64_max < r.next_seq + length pushed
    → seq < u64_max
    → replay_from cut (push_all (push r pushed).0 chunks) seq ≡ none
unfolding replay_from
replay_from-poisoned r pushed chunks cut seq le over below =
    let p = push_all-IsPoisoned _ chunks (push-IsPoisoned r pushed over le) in ground (arith, p)

empty_replay :
    (cut : ℕ) (r : PtyRingBuffer) → IsPoisoned r → replay_from cut r u64_max ≡ some (u64_max, [])
unfolding replay_from
empty_replay zero r p = simp (p.start, p.next, p.empty)
empty_replay (suc cut) r p = simp (p.start, p.next, p.empty)

-- Once the sequence numbers are used up, since a push went past the last number 2^64 - 1, a replay
-- is refused from every position below the last number, and at the last number itself it is not
-- refused but empty, whatever chunks are pushed after that.
pub replay_from-poisoned_end :
    (r : PtyRingBuffer) (pushed : List ℕ) (chunks : List (List ℕ)) (cut : ℕ)
    → r.next_seq ≤ u64_max
    → u64_max < r.next_seq + length pushed
    → ((seq : ℕ) → seq < u64_max → replay_from cut (push_all (push r pushed).0 chunks) seq ≡ none)
      × (replay_from cut (push_all (push r pushed).0 chunks) u64_max ≡ some (u64_max, []))
replay_from-poisoned_end r pushed chunks cut le over = (
  (λ seq below. replay_from-poisoned r pushed chunks cut seq le over below),
  empty_replay cut _ (push_all-IsPoisoned _ chunks (push-IsPoisoned r pushed over le)),
)
