-- ===== src/Crypto/Session/Once.antt =====
-- A session opens no frame twice.
use fluxsync.Base.{
  ℕ, ◌≡◌, true, false, not, List, [], ◌∷◌, Option, none, some, arith, ltb, leb, if_split, length,
}
use fluxsync.Crypto.Replay.{is_fresh}
use fluxsync.Crypto.Replay.Laws.{Stands, Stands-accept, Stands-is_fresh, Stands-default, is_in}
use fluxsync.Crypto.Session.{
  Bytes, nonce_prefix_len, Cipher, Session, skip, nonce_of, new, settle, decrypt,
}

abbrev pub AreDistinct : List ℕ → Type 0
AreDistinct [] = Unit {0}
AreDistinct (n ∷ ns) = (is_in n ns ≡ false) × AreDistinct ns

-- The nonces used up so far, with one more if a frame was opened.
abbrev pub used : Option Bytes → ℕ → List ℕ → List ℕ
used none nonce ns = ns
used (some buf) nonce ns = nonce ∷ ns

module _ {T : Type 0} (c : Cipher T) where
  -- The nonces of the frames that were opened, the newest first.
  abbrev pub opened : Session T → List ℕ → List Bytes → List ℕ
  opened s ns [] = ns
  opened s ns (f ∷ fs) =
      let (next, buf) = decrypt c s f in opened next (used buf (nonce_of f) ns) fs

  settle-IsGuard :
      (s : Session T) (t : T) (nonce : ℕ) (buf : Option Bytes) (ns : List ℕ)
      → Stands s.replay ns
      → AreDistinct ns
      → is_fresh s.replay nonce ≡ true
      → let (next, out) = settle s t nonce buf in
        Stands next.replay (used out nonce ns) × AreDistinct (used out nonce ns)
  unfolding settle
  settle-IsGuard s t nonce none ns h d fresh = (h, d)
  settle-IsGuard s t nonce (some buf) ns h d fresh =
      (Stands-accept s.replay nonce ns h, (ground (arith, Stands-is_fresh s.replay nonce ns h), d))

  decrypt-IsGuard :
      (s : Session T) (f : Bytes) (ns : List ℕ)
      → Stands s.replay ns
      → AreDistinct ns
      → let (next, out) = decrypt c s f in
        Stands next.replay (used out (nonce_of f) ns) × AreDistinct (used out (nonce_of f) ns)
  unfolding decrypt
  decrypt-IsGuard s f ns h d =
      let nonce = nonce_of f in
      let body = skip nonce_prefix_len f in
      let (t, buf) = c.read_message (c.set_receiving_nonce s.transport nonce) body in
      let Good = λ (r : Session T × Option Bytes).
        Stands r.0.replay (used r.1 nonce ns) × AreDistinct (used r.1 nonce ns) in
      if_split Good (ltb (length f) nonce_prefix_len) (s, none) _ (λ _. (h, d))
        (λ _.
          if_split Good (not (leb 16 (length body))) (s, none) _ (λ _. (h, d))
            (λ _.
              if_split Good (not (is_fresh s.replay nonce)) (s, none) (settle s t nonce buf)
                (λ _. (h, d)) (λ ok. settle-IsGuard s t nonce buf ns h d (ground arith))))

  opened-AreDistinct :
      (s : Session T) (ns : List ℕ) (fs : List Bytes)
      → Stands s.replay ns
      → AreDistinct ns
      → AreDistinct (opened s ns fs)
  opened-AreDistinct s ns [] h d = d
  opened-AreDistinct s ns (f ∷ fs) h d =
      let (next, buf) = decrypt c s f in
      let kept = decrypt-IsGuard s f ns h d in
      opened-AreDistinct next (used buf (nonce_of f) ns) fs kept.0 kept.1

  -- Whatever frames a new session is given, in whatever order and however often, the nonces of
  -- those that it opens are all different: no frame is opened twice.
  pub decrypt_once :
      (transport : T) (handshake_hash : Bytes) (frames : List Bytes)
      → AreDistinct (opened (new transport handshake_hash) [] frames)
  unfolding new
  decrypt_once transport handshake_hash frames =
      opened-AreDistinct (new transport handshake_hash) [] frames Stands-default tt
