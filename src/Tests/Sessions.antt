-- ===== src/Tests/Sessions.antt =====
-- A cipher that only tags, replays against it, and redials.
use fluxsync.Base.{
  ℕ, ◌+◌, ◌≡◌, subst, ◌≤◌, ◌<◌, refl, true, false, List, [], ◌∷◌, ◌++◌, Option, some, none, arith,
  length,
}
use fluxsync.Daemon.RateLimit.{check_at}
use fluxsync.Daemon.RateLimit.Laws.{Requests, granted}
use fluxsync.Crypto.Replay.{is_fresh, default}
use fluxsync.Crypto.Replay.Laws.{accept_all, is_fresh_exact}
use fluxsync.Crypto.Session.{Bytes, Cipher, new, encrypt, decrypt, to_le_bytes}
use fluxsync.Crypto.Session.Once.{AreDistinct, opened, decrypt_once}
use fluxsync.Crypto.Session.RoundTrip.{IsPaired, decrypt-encrypt}
use fluxsync.Daemon.Backoff.{PeerBackoff, ready, on_attempt_failed}
use fluxsync.Daemon.Backoff.Laws.{Cycle, failed, session, redial_window}

abbrev tag : Bytes
tag = 0 ∷ 0 ∷ 0 ∷ 0 ∷ 0 ∷ 0 ∷ 0 ∷ 0 ∷ 0 ∷ 0 ∷ 0 ∷ 0 ∷ 0 ∷ 0 ∷ 0 ∷ 0 ∷ []

abbrev untag : Bytes → Option Bytes
untag (b ∷ c ∷ d ∷ e ∷ f ∷ g ∷ h ∷ i ∷ j ∷ k ∷ l ∷ m ∷ n ∷ o ∷ p ∷ q ∷ buf) = some buf
untag _ = none

-- The state of a side is its nonce; the tag stands in front.
abbrev pub tagging : Cipher ℕ
tagging = record {
  sending_nonce = λ n. n;
  write_message = λ n p. (n + 1, some (tag ++ p));
  set_receiving_nonce = λ _ n. n;
  read_message = λ n buf. (n, untag buf);
}

some_inj : {x y : Bytes} → some x ≡ some y → x ≡ y
some_inj h = ground arith

tagging-IsPaired : IsPaired tagging 3 0
tagging-IsPaired = record {
  tagged = λ p buf h. subst (λ b. length b ≡ length p + 16) (some_inj h) (omega arith);
  reads = λ p buf h. subst (λ b. untag b ≡ some p) (some_inj h) refl;
}

abbrev pub frame : ℕ → Bytes
frame n = to_le_bytes 8 n ++ tag

is_fresh_exact_example : is_fresh (accept_all (70 ∷ 6 ∷ [])) 6 ≡ false
is_fresh_exact_example = is_fresh_exact (70 ∷ 6 ∷ []) 6

decrypt_once_example : AreDistinct (opened tagging (new 0 []) [] (frame 1 ∷ frame 0 ∷ frame 1 ∷ []))
decrypt_once_example = decrypt_once tagging 0 [] (frame 1 ∷ frame 0 ∷ frame 1 ∷ [])

decrypt-encrypt_example :
    (decrypt tagging (new 0 []) (frame 3 ++ 104 ∷ 105 ∷ [])).1 ≡ some (104 ∷ 105 ∷ [])
unfolding new to_le_bytes
decrypt-encrypt_example =
    decrypt-encrypt tagging (new 3 []) (new 0 []) (104 ∷ 105 ∷ []) (frame 3 ++ 104 ∷ 105 ∷ [])
      tagging-IsPaired (omega arith) (unfold is_fresh default in refl) (unfold encrypt in refl)

abbrev failed_often : PeerBackoff
failed_often = record { attempt = 4; next_ready_at = none }

redial_window_example :
    let b = failed_often in
    (ready (on_attempt_failed b 1000 0) 9000 ≡ true → 1250 ≤ 9000)
    × (9000 ≤ 9000 → ready (on_attempt_failed b 1000 0) 9000 ≡ true)
    × (4 ≤ 4 → ready (on_attempt_failed b 1000 0) 9000 ≡ true → 7000 < 9000)
redial_window_example = redial_window failed_often 1000 0 9000 (omega arith)

abbrev flapping : List Cycle
flapping = failed 0 0 ∷ session 9000 ∷ failed 20000 0 ∷ session 14999 ∷ []

-- A source that knocks six times in a second, and another one.
abbrev knocks : Requests
knocks = (8, 100) ∷ (8, 200) ∷ (8, 300) ∷ (9, 310) ∷ (8, 400) ∷ (8, 500) ∷ (8, 600) ∷ (8, 7000) ∷ []

six_of_seven : granted 8 [] knocks ≡ 6
unfolding check_at
six_of_seven = refl
