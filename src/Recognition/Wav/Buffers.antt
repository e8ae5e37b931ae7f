-- ===== src/Recognition/Wav/Buffers.antt =====
-- src/services/audio-recognition/wav.js: decoding in a buffer and in a part of it.
use hernan_pedraza_pi_back.Prelude.{
  ℕ, zero, suc, ◌+◌, ◌*◌, ◌/◌, ◌≤◌, ◌<◌, Bool, true, false, Option, none, some, List, [], ◌∷◌, ◌==◌,
  length, drop, get_elem?, if◌then◌else◌, ◌≡◌, refl, sym, ap, ◌∙◌, arith,
}
use hernan_pedraza_pi_back.Recognition.Wav.{
  Run, returned, threw, unfinished, ◌>>=◌, Format, fill, read_at,
}
use hernan_pedraza_pi_back.Recognition.Wav.Frames.{
  Numbers, frame_size, bytes_at, read_sample, sample, sum_channels, decode_frame, decode_frames,
}

-- The bytes of one buffer are those of another one from `s` on.
abbrev pub Agree : ℕ → ℕ → List ℕ → List ℕ → Type 0
Agree s n b c = (j : ℕ) → j < n → get_elem? b j ≡ get_elem? c (s + j)

abbrev pub byte_or_zero : Option ℕ → ℕ
byte_or_zero none = 0
byte_or_zero (some b) = b

get_elem?-fill :
    (n j : ℕ) (bytes : List ℕ)
    → j < n
    → get_elem? (fill n bytes) j ≡ some (byte_or_zero (get_elem? bytes j))
get_elem?-fill zero j bytes h = ground arith
get_elem?-fill (suc n) zero [] h = refl
get_elem?-fill (suc n) zero (b ∷ bytes) h = refl
get_elem?-fill (suc n) (suc j) [] h = get_elem?-fill n j [] (ground arith)
get_elem?-fill (suc n) (suc j) (b ∷ bytes) h = get_elem?-fill n j bytes (ground arith)

get_elem?-drop : (o j : ℕ) (bytes : List ℕ) → get_elem? (drop o bytes) j ≡ get_elem? bytes (o + j)
get_elem?-drop zero j bytes = let e : j ≡ 0 + j = omega arith in ap (λ x. get_elem? bytes x) e
get_elem?-drop (suc o) j [] = refl
get_elem?-drop (suc o) j (b ∷ bytes) =
    let e : suc (o + j) ≡ suc o + j = omega arith in
    get_elem?-drop o j bytes ∙ ap (λ x. get_elem? (b ∷ bytes) x) e

pub length-fill : (n : ℕ) (bytes : List ℕ) → length (fill n bytes) ≡ n
length-fill zero bytes = refl
length-fill (suc n) [] = ap suc (length-fill n [])
length-fill (suc n) (b ∷ bytes) = ap suc (length-fill n bytes)

if_cong {ℓ} :
    {A : Type ℓ} {x x' y y' : A} (b : Bool)
    → (b ≡ true → x ≡ x')
    → y ≡ y'
    → (if b then x else y) ≡ (if b then x' else y')
if_cong true p q = p refl
if_cong false p q = q

pub bind_cong {ℓ κ} :
    {A : Type ℓ} {B : Type κ} {r r' : Run A} {f g : A → Run B}
    → r ≡ r'
    → ((a : A) → f a ≡ g a)
    → (r >>= f) ≡ (r' >>= g)
bind_cong {r' = r'} {f = f} {g = g} e h = ap (λ x. x >>= f) e ∙ same r'
  where
    same : (x : Run _) → (x >>= f) ≡ (x >>= g)
    same (returned a) = h a
    same threw = refl
    same unfinished = refl

module _ {ℓ} {A : Type ℓ} where
  pub >>=-returned : (r : Run A) → (r >>= returned) ≡ r
  >>=-returned (returned a) = refl
  >>=-returned threw = refl
  >>=-returned unfinished = refl

pub >>=_assoc {ℓ κ ι} :
    {A : Type ℓ} {B : Type κ} {C : Type ι} (r : Run A) (f : A → Run B) (g : B → Run C)
    → ((r >>= f) >>= g) ≡ (r >>= λ a. f a >>= g)
>>=_assoc (returned a) f g = refl
>>=_assoc threw f g = refl
>>=_assoc unfinished f g = refl

-- What is read of a file further on is a part of what is read of it.
pub Agree-read_at :
    (file : List ℕ) (n m o s : ℕ)
    → s + n ≤ m
    → Agree s n (read_at file n (o + s)) (read_at file m o)
Agree-read_at file n m o s h j k =
    let left : get_elem? (read_at file n (o + s)) j
        ≡ some (byte_or_zero (get_elem? file (o + s + j))) =
      (get_elem?-fill n j (drop (o + s) file) k
        ∙ ap (λ x. some (byte_or_zero x)) (get_elem?-drop (o + s) j file)) in
    let right : get_elem? (read_at file m o) (s + j)
        ≡ some (byte_or_zero (get_elem? file (o + (s + j)))) =
      (get_elem?-fill m (s + j) (drop o file) (ground arith)
        ∙ ap (λ x. some (byte_or_zero x)) (get_elem?-drop o (s + j) file)) in
    left ∙ ap (λ x. some (byte_or_zero (get_elem? file x))) (omega arith) ∙ sym right

module _ (s n : ℕ) (b c : List ℕ) (agree : Agree s n b c) where
  bytes_at-Agree : (k off : ℕ) → off + k ≤ n → bytes_at b off k ≡ bytes_at c (s + off) k
  bytes_at-Agree zero off h = refl
  bytes_at-Agree (suc k) off h =
      let first : get_elem? b off ≡ get_elem? c (s + off) = agree off (ground arith) in
      let rest : bytes_at b (off + 1) k ≡ bytes_at c (s + off + 1) k =
        (bytes_at-Agree k (off + 1) (ground arith) ∙ ap (λ x. bytes_at c x k) (omega arith)) in
      (rw (first, rest) refl)

  module _ {F : Type 0} (nums : Numbers F) (fmt : Format) where
    read_sample-Agree :
        (k off : ℕ) (decode : List ℕ → F)
        → off + k ≤ n
        → read_sample nums b off k decode ≡ read_sample nums c (s + off) k decode
    read_sample-Agree k off decode h =
        ap (λ r. r >>= λ bytes. returned (decode bytes)) (bytes_at-Agree k off h)

    sample-Agree :
        (off : ℕ) → off + fmt.bits / 8 ≤ n → sample nums fmt b off ≡ sample nums fmt c (s + off)
    unfolding sample
    sample-Agree off h =
        if_cong (fmt.format == 3)
          (λ _.
            if_cong (fmt.bits == 32) (λ e. read_sample-Agree 4 off _ (ground arith))
              (if_cong (fmt.bits == 64) (λ e. read_sample-Agree 8 off _ (ground arith)) refl))
          (if_cong (fmt.format == 1)
            (λ _.
              if_cong (fmt.bits == 8) (λ e. read_sample-Agree 1 off _ (ground arith))
                (if_cong (fmt.bits == 16) (λ e. read_sample-Agree 2 off _ (ground arith))
                  (if_cong (fmt.bits == 24) (λ e. read_sample-Agree 3 off _ (ground arith))
                    (if_cong (fmt.bits == 32) (λ e. read_sample-Agree 4 off _ (ground arith))
                      refl))))
            refl)

    sum_channels-Agree :
        (k off : ℕ) (sum : F)
        → off + fmt.bits / 8 * k ≤ n
        → sum_channels nums fmt b off k sum ≡ sum_channels nums fmt c (s + off) k sum
    unfolding sum_channels
    sum_channels-Agree zero off sum h = refl
    sum_channels-Agree (suc k) off sum h = bind_cong (sample-Agree off (ground arith)) (λ x.
        sum_channels-Agree k (off + fmt.bits / 8) (nums.add sum x) (ground arith)
        ∙ ap (λ o. sum_channels nums fmt c o k (nums.add sum x)) (omega arith))

    decode_frame-Agree :
        (off : ℕ)
        → off + frame_size fmt ≤ n
        → decode_frame nums fmt b off ≡ decode_frame nums fmt c (s + off)
    unfolding decode_frame
    decode_frame-Agree off h =
        bind_cong (sum_channels-Agree fmt.channels off nums.nought h) (λ sum. refl)

    pub decode_frames-Agree :
        (k off : ℕ)
        → off + k * frame_size fmt ≤ n
        → decode_frames nums fmt b k off ≡ decode_frames nums fmt c k (s + off)
    unfolding decode_frames
    decode_frames-Agree zero off h = refl
    decode_frames-Agree (suc k) off h = bind_cong (decode_frame-Agree off (ground arith)) (λ x.
        bind_cong
          (decode_frames-Agree k (off + frame_size fmt) (ground arith)
            ∙ ap (λ o. decode_frames nums fmt c k o) (omega arith))
          (λ xs. refl))
