-- ===== src/Ota/Greeting.antt =====
-- The handshake of esphome_ota_run with a client that has sent all its bytes.
use zephyr_esphome.Prelude.{ℕ, ◌^◌, ◌<◌, ◌≡◌, List, [], ◌∷◌, ◌++◌, length}
use zephyr_esphome.Ota.Base.{
  Platform, Step, Run, pure, ◌>>◌, magic_bytes, response_ok, header_ok, auth_ok, update_prepare_ok,
  bin_md5_ok,
}
use zephyr_esphome.Ota.{
  send_all, recv_all, recv_or_answer, read_magic, send_version, read_features, send_auth_ok,
  read_size, send_prepare_ok, read_md5, handshake,
}
use zephyr_esphome.Ota.Errors.{checked, sized, big_endian, foldl-big_endian}
use zephyr_esphome.Ota.Stream.{
  Streams, Yields, pure-Yields, then-Yields, reads-Yields, send_all-Yields, recv_all-Yields,
  recv_or_answer-Yields,
}

-- What it is answered: the handshake, a byte for every block of the image, and the end.
abbrev pub answers : List ℕ
answers = response_ok ∷ 2 ∷ header_ok ∷ auth_ok ∷ update_prepare_ok ∷ bin_md5_ok ∷ []

module _ (p : Platform) (stream : p.Peer → List ℕ) (streams : Streams p stream) where
  open p use {Peer}

  read_magic-Yields :
      (r : Run p) (rest : List ℕ)
      → stream r.peer ≡ magic_bytes ++ rest
      → Yields p stream streams (read_magic p) r tt [] rest
  unfolding read_magic
  read_magic-Yields r rest e =
      reads-Yields p stream streams (recv_all p 5) (checked p) r magic_bytes tt [] rest rest
        (recv_all-Yields p stream streams magic_bytes rest r e)
        (λ q s left. pure-Yields p stream streams tt (record r { peer = q; sent = s }) rest left)

  read_features-Yields :
      (r : Run p) (b : ℕ) (rest : List ℕ)
      → stream r.peer ≡ b ∷ rest
      → Yields p stream streams (read_features p) r tt (header_ok ∷ []) rest
  unfolding read_features
  read_features-Yields r b rest e =
      reads-Yields p stream streams (recv_all p 1) (λ bs. send_all p (header_ok ∷ [])) r (b ∷ []) tt
        (header_ok ∷ []) rest rest (recv_all-Yields p stream streams (b ∷ []) rest r e)
        (λ q s left.
          send_all-Yields p stream streams (header_ok ∷ []) (record r { peer = q; sent = s }) rest
            left)

  read_size-Yields :
      (r : Run p) (n : ℕ) (rest : List ℕ)
      → n < 2 ^ 32
      → stream r.peer ≡ big_endian n ++ rest
      → Yields p stream streams (read_size p) r n [] rest
  unfolding read_size
  read_size-Yields r n rest h e =
      reads-Yields p stream streams (recv_all p 4) (sized p) r (big_endian n) n [] rest rest
        (recv_all-Yields p stream streams (big_endian n) rest r e)
        (λ q s left.
          rw (foldl-big_endian n h)
            (pure-Yields p stream streams n (record r { peer = q; sent = s }) rest left))

  read_md5-Yields :
      (r : Run p) (md5 rest : List ℕ)
      → length md5 ≡ 32
      → stream r.peer ≡ md5 ++ rest
      → Yields p stream streams (read_md5 p) r tt (bin_md5_ok ∷ []) rest
  unfolding read_md5
  read_md5-Yields r md5 rest l e =
      reads-Yields p stream streams (recv_or_answer p 32 0) (λ bs. send_all p (bin_md5_ok ∷ [])) r
        md5 tt (bin_md5_ok ∷ []) rest rest
        (rw l at (recv_or_answer-Yields p stream streams 0 md5 rest r e))
        (λ q s left.
          send_all-Yields p stream streams (bin_md5_ok ∷ []) (record r { peer = q; sent = s }) rest
            left)

  abbrev after_size : ℕ → Step (Run p) ℕ
  after_size n = send_prepare_ok p >> (read_md5 p >> pure n)

  -- The handshake, on the bytes before the image.
  pub handshake-Yields :
      (r : Run p) (feature n : ℕ) (md5 rest : List ℕ)
      → n < 2 ^ 32
      → length md5 ≡ 32
      → stream r.peer ≡ magic_bytes ++ (feature ∷ (big_endian n ++ (md5 ++ rest)))
      → Yields p stream streams (handshake p) r n answers rest
  unfolding handshake send_version send_auth_ok send_prepare_ok
  handshake-Yields r feature n md5 rest h l e =
      let sizes = big_endian n ++ (md5 ++ rest) in
      let to_end = update_prepare_ok ∷ bin_md5_ok ∷ [] in
      then-Yields p stream streams (read_magic p) _ r n [] answers (feature ∷ sizes) rest
        (read_magic-Yields r (feature ∷ sizes) e)
        (λ q s e.
          then-Yields p stream streams (send_version p) _ _ n (response_ok ∷ 2 ∷ [])
            (header_ok ∷ auth_ok ∷ to_end) (feature ∷ sizes) rest
            (send_all-Yields p stream streams (response_ok ∷ 2 ∷ []) _ (feature ∷ sizes) e)
            (λ q s e.
              then-Yields p stream streams (read_features p) _ _ n (header_ok ∷ [])
                (auth_ok ∷ to_end) sizes rest (read_features-Yields _ feature sizes e)
                (λ q s e.
                  then-Yields p stream streams (send_auth_ok p) _ _ n (auth_ok ∷ []) to_end sizes
                    rest (send_all-Yields p stream streams (auth_ok ∷ []) _ sizes e)
                    (λ q s e.
                      reads-Yields p stream streams (read_size p) after_size _ n n to_end
                        (md5 ++ rest) rest (read_size-Yields _ n (md5 ++ rest) h e)
                        (λ q s e.
                          then-Yields p stream streams (send_prepare_ok p) _ _ n
                            (update_prepare_ok ∷ []) (bin_md5_ok ∷ []) (md5 ++ rest) rest
                            (send_all-Yields p stream streams (update_prepare_ok ∷ []) _
                              (md5 ++ rest) e)
                            (λ q s e.
                              then-Yields p stream streams (read_md5 p) _ _ n (bin_md5_ok ∷ []) []
                                rest rest (read_md5-Yields _ md5 rest l e)
                                (λ q s e. pure-Yields p stream streams n _ rest e)))))))
