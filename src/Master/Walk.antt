-- ===== src/Master/Walk.antt =====
-- Which servers Ms_Frame of src/master/main.c keeps, frame by frame, and when it drops one, where its walk breaks.
use quake2world.Prelude.{
  ℕ, suc, ◌+◌, ◌*◌, ◌%◌, ◌^◌, ◌≤◌, ◌<◌, ◌≡◌, refl, sym, ap, ◌∙◌, ◌⊎◌, inl, inr, Bool-cases, true,
  false, subst, Option, none, some, List, [], ◌∷◌, ◌++◌, map, length, arith,
}
use quake2world.Master.{
  SockAddr, Server, Servers, Sent, ping, Frame, walked, dangling, behind, frame, is_lost, is_pinged,
  pinged,
}

abbrev pub after_frame : Frame → (Servers → Option Servers) → Option Servers
after_frame (walked l sent) next = next l
after_frame (dangling l sent) next = none

-- Ms_Frame at one time after the other; none if one of them reads a freed link.
abbrev pub frames : List ℕ → Servers → Option Servers
frames [] l = some l
frames (now ∷ times) l = after_frame (frame now l) (frames times)

abbrev pub Each : (Server → Type 0) → Servers → Type 0
Each P [] = Unit
Each P (s ∷ l) = P s × Each P l

abbrev pub addrs : Servers → List SockAddr
addrs l = map (λ s. s.addr) l

-- Times from `t` on, each no earlier than the one before, and all less than a minute after `base`
abbrev pub Within : ℕ → ℕ → List ℕ → Type 0
Within base t [] = Unit
Within base t (now ∷ times) = (t ≤ now) × (now < base + 60) × Within base now times

-- The pings of a server have been ten seconds apart since `base`.
abbrev Patient : ℕ → ℕ → Server → Type 0
Patient base t s =
    (s.queued_pings ≡ 0) ⊎ ((base + 10 * s.queued_pings ≤ s.last_ping + 10) × (s.last_ping ≤ t))

walk-lost :
    (now : ℕ) (s : Server) (l : Servers) → is_lost now s ≡ true → frame now (s ∷ l) ≡ dangling l []
unfolding frame
walk-lost now s l e = rw (e) refl

walk-pinged :
    (now : ℕ) (s : Server) (l : Servers)
    → is_lost now s ≡ false
    → is_pinged now s ≡ true
    → frame now (s ∷ l) ≡ behind (pinged now s) (ping s.addr ∷ []) (frame now l)
unfolding frame
walk-pinged now s l e p = rw (e, p) refl

walk-kept :
    (now : ℕ) (s : Server) (l : Servers)
    → is_lost now s ≡ false
    → is_pinged now s ≡ false
    → frame now (s ∷ l) ≡ behind s [] (frame now l)
unfolding frame
walk-kept now s l e p = rw (e, p) refl

queued-Patient :
    (base t now : ℕ) (s : Server)
    → t ≤ now
    → now < base + 60
    → Patient base t s
    → s.queued_pings ≤ 6
queued-Patient base t now s h k (inl z) = omega (arith, z)
queued-Patient base t now s h k (inr (d, l)) = omega (arith, h, k, d, l)

few-is_lost : (now : ℕ) (s : Server) → s.queued_pings ≤ 6 → is_lost now s ≡ false
few-is_lost now s h = ground (arith, h)

due_ping : (now : ℕ) (s : Server) → is_pinged now s ≡ true → s.last_ping + 10 ≤ now
due_ping now s h = ground (arith, h)

one_more : (q : ℕ) → q ≤ 6 → (q + 1) % 2 ^ 16 ≡ q + 1
one_more q h = omega (arith, h)

pinged-Patient :
    (base t now : ℕ) (s : Server)
    → base ≤ now
    → s.queued_pings ≤ 6
    → s.last_ping + 10 ≤ now
    → Patient base t s
    → Patient base now (pinged now s)
pinged-Patient base t now s b q d (inl z) =
    let e = one_more s.queued_pings q in inr (omega (arith, z, b, e), omega arith)
pinged-Patient base t now s b q d (inr (h, l)) =
    let e = one_more s.queued_pings q in inr (omega (arith, h, d, e), omega arith)

later-Patient : (base t now : ℕ) (s : Server) → t ≤ now → Patient base t s → Patient base now s
later-Patient base t now s h (inl z) = inl z
later-Patient base t now s h (inr (d, l)) = inr (d, omega (arith, l, h))

-- What a frame leaves when it is not late
abbrev Kept : ℕ → ℕ → Servers → Type 0
Kept base now l =
    (l' : Servers) × (sent : List Sent) × (frame now l ≡ walked l' sent)
    × Each (Patient base now) l'
    × (addrs l' ≡ addrs l)

module _ (base t now : ℕ) (b : base ≤ now) (h : t ≤ now) (k : now < base + 60) where
  frame-Kept : (l : Servers) → Each (Patient base t) l → Kept base now l
  unfolding frame
  frame-Kept [] p = ([], [], refl, tt, refl)
  frame-Kept (s ∷ l) (p, ps) =
      let (l', sent, e, each, same) = frame-Kept l ps in
      let few = queued-Patient base t now s h k p in
      let found = few-is_lost now s few in
      elim (Bool-cases (is_pinged now s)) [
        | inl d ↦ (
          pinged now s ∷ l',
          ping s.addr ∷ [] ++ sent,
          walk-pinged now s l found d ∙ ap (behind (pinged now s) (ping s.addr ∷ [])) e,
          (pinged-Patient base t now s b few (due_ping now s d) p, each),
          ap (λ a. s.addr ∷ a) same,
        )
        | inr d ↦ (
          s ∷ l',
          sent,
          walk-kept now s l found d ∙ ap (behind s []) e,
          (later-Patient base t now s h p, each),
          ap (λ a. s.addr ∷ a) same,
        )
      ]

frames-kept :
    (base t : ℕ) (times : List ℕ) (l : Servers)
    → base ≤ t
    → Within base t times
    → Each (Patient base t) l
    → (l' : Servers) × (frames times l ≡ some l') × (addrs l' ≡ addrs l)
frames-kept base t [] l b w p = (l, refl, refl)
frames-kept base t (now ∷ times) l b (h, k, w) p =
    let later : base ≤ now = omega (arith, b, h) in
    let (l', sent, e, each, same) = frame-Kept base t now later h k l p in
    let (l'', e', same') = frames-kept base now times l' later w each in
    (l'', ap (λ r. after_frame r (frames times)) e ∙ e', same' ∙ same)

none_queued :
    (base : ℕ) (l : Servers) → Each (λ s. s.queued_pings ≡ 0) l → Each (Patient base base) l
none_queued base [] p = tt
none_queued base (s ∷ l) (p, ps) = (inl p, none_queued base l ps)

-- If no server owes an answer to a ping, then for a minute, however many frames there are in it, no server is
-- dropped: the frames end, and the servers are the same, in the same order.
pub kept_a_minute :
    (base : ℕ) (times : List ℕ) (l : Servers)
    → Each (λ s. s.queued_pings ≡ 0) l
    → Within base base times
    → (l' : Servers) × (frames times l ≡ some l') × (addrs l' ≡ addrs l)
kept_a_minute base times l p w =
    frames-kept base base times l (omega arith) w (none_queued base l p)

-- Times from ten seconds after `t` on, each at least ten seconds after the one before
abbrev pub Spread : ℕ → List ℕ → Type 0
Spread t [] = Unit
Spread t (now ∷ times) = (t + 10 ≤ now) × Spread now times

abbrev pub Has : (Server → Type 0) → Servers → Type 0
Has P [] = ⊥
Has P (s ∷ l) = P s ⊎ Has P l

-- A server that was last heard of, and last pinged, well before `t`, and was pinged `q` times
abbrev Silent : ℕ → ℕ → Server → Type 0
Silent q t s = (s.last_heartbeat + 20 < t) × (s.last_ping ≤ t) × (q ≤ s.queued_pings)

abbrev Dropped : ℕ → ℕ → Frame → Type 0
Dropped q now (walked l sent) = Has (Silent (suc q) now) l × (q ≤ 6)
Dropped q now (dangling l sent) = Unit

behind-Dropped :
    (q now : ℕ) (s : Server) (sent : List Sent) (r : Frame)
    → Dropped q now r
    → Dropped q now (behind s sent r)
behind-Dropped q now s sent (walked l more) (h, k) = (inr h, k)
behind-Dropped q now s sent (dangling l more) h = tt

Silent-Dropped :
    (q now : ℕ) (s : Server) (sent : List Sent) (r : Frame)
    → Silent (suc q) now s
    → q ≤ 6
    → Dropped q now (behind s sent r)
Silent-Dropped q now s sent (walked l more) h k = (inl h, k)
Silent-Dropped q now s sent (dangling l more) h k = tt

is_lost-few :
    (now : ℕ) (s : Server)
    → s.last_heartbeat + 30 < now
    → is_lost now s ≡ false
    → s.queued_pings ≤ 6
is_lost-few now s h e = ground (arith, h, e)

is_pinged-due :
    (now : ℕ) (s : Server)
    → s.last_heartbeat + 30 < now
    → s.last_ping + 10 ≤ now
    → is_pinged now s ≡ true
is_pinged-due now s h k = ground (arith, h, k)

frame-Dropped :
    (q t now : ℕ) (l : Servers) → t + 10 ≤ now → Has (Silent q t) l → Dropped q now (frame now l)
frame-Dropped q t now [] k h = absurd h
frame-Dropped q t now (s ∷ l) k h = elim (Bool-cases (is_lost now s)) [
  | inl e ↦ subst (Dropped q now) (sym (walk-lost now s l e)) tt
  | inr e ↦ elim h [
    | inl (heard, last, n) ↦
        let silent : s.last_heartbeat + 30 < now = omega (arith, heard, k) in
        let few = is_lost-few now s silent e in
        let more = one_more s.queued_pings few in
        subst (Dropped q now)
          (sym (walk-pinged now s l e (is_pinged-due now s silent (omega (arith, last, k)))))
          (Silent-Dropped q now (pinged now s) (ping s.addr ∷ []) (frame now l)
            (omega (arith, heard, k), omega arith, omega (arith, more, n)) (omega (arith, few, n)))
    | inr m ↦
        let rest = frame-Dropped q t now l k m in
        elim (Bool-cases (is_pinged now s)) [
          | inl p ↦
              subst (Dropped q now) (sym (walk-pinged now s l e p))
                (behind-Dropped q now (pinged now s) (ping s.addr ∷ []) (frame now l) rest)
          | inr p ↦
              subst (Dropped q now) (sym (walk-kept now s l e p))
                (behind-Dropped q now s [] (frame now l) rest)
        ]
  ]
]

after-Dropped :
    (q now : ℕ) (times : List ℕ) (r : Frame)
    → Dropped q now r
    → ((l : Servers) → Has (Silent (suc q) now) l → q ≤ 6 → frames times l ≡ none)
    → after_frame r (frames times) ≡ none
after-Dropped q now times (walked l sent) (h, k) go = go l h k
after-Dropped q now times (dangling l sent) h go = refl

frames-dropped :
    (q t : ℕ) (times : List ℕ) (l : Servers)
    → 8 ≤ q + length times
    → q ≤ 7
    → Spread t times
    → Has (Silent q t) l
    → frames times l ≡ none
frames-dropped q t [] l n k w h = absurd (omega (arith, n, k))
frames-dropped q t (now ∷ times) l n k (d, w) h =
    after-Dropped q now times (frame now l) (frame-Dropped q t now l d h)
      (λ l' m few. frames-dropped (suc q) now times l' (omega (arith, n)) (omega (arith, few)) w m)

unpinged :
    (t : ℕ) (l : Servers)
    → Has (λ s. (s.last_heartbeat + 20 < t) × (s.last_ping ≤ t)) l
    → Has (Silent 0 t) l
unpinged t [] h = absurd h
unpinged t (s ∷ l) (inl (h, k)) = inl (h, k, omega arith)
unpinged t (s ∷ l) (inr m) = inr (unpinged t l m)

-- If a server was last heard of more than twenty seconds before `t` and last pinged no later than `t`, and eight frames follow, each at least
-- ten seconds after the one before and the first at least ten seconds after `t`, then one of them drops a server and reads the
-- link that is freed.
pub silent_dropped :
    (t : ℕ) (times : List ℕ) (l : Servers)
    → Has (λ s. (s.last_heartbeat + 20 < t) × (s.last_ping ≤ t)) l
    → Spread t times
    → 8 ≤ length times
    → frames times l ≡ none
silent_dropped t times l h w n =
    frames-dropped 0 t times l (omega (arith, n)) (omega arith) w (unpinged t l h)
