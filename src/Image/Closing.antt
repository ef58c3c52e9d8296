-- ===== src/Image/Closing.antt =====
-- Where the image viewer closes a file it has not opened
-- (hw_bringup/userspace/image_viewer/zx32_image_viewer.c, `main`).
use zynq_cpu.Base.{
  ℕ, ◌≡◌, refl, ap, sym, ◌∙◌, Store, not, ◌&&◌, Bool, Bool-cases, inl, inr, true, false, List, [],
  ◌∷◌, codes, Option, none, some, arith,
}
use mathlib.Core.Bool.{true≢false}
use mathlib.Core.Path.{subst}
use zynq_cpu.Image.{checked_fb_bytes}
use zynq_cpu.Image.Number.{parse_ulong}
use zynq_cpu.Image.Header.{Parsed, ok, failed, exits, same_text, read_ppm_header}
use zynq_cpu.Image.Viewer.{
  Host, Text, Input, raw_file, ppm_file, no_file, Job, Setup, ask, stop, Outcome, ended, null_file,
  given, options, opened, setup_raw, headed, setup_ppm, dump_options, setup_dump, setup, give_up,
  load_input, dump_to, names_file, show_and_dump, map_and_show, display, follow, main,
}

abbrev pub is_null : Outcome → Bool
is_null null_file = true
is_null (ended status fb written) = false

abbrev no_input : Input → Bool
no_input no_file = true
no_input (raw_file file) = false
no_input (ppm_file file) = false

-- The picture fits, and the framebuffer can be mapped for it.
abbrev maps_bytes : Host → Job → Option ℕ → Bool
maps_bytes host job none = false
maps_bytes host job (some bytes) = host.mem_opens && host.maps job.fb_base bytes

abbrev pub can_map : Host → Job → Bool
can_map host job = maps_bytes host job (checked_fb_bytes job.width job.height)

-- What is asked for has an input file, or has none.
abbrev Without : Bool → Setup → Type 0
Without b (stop status) = Unit {0}
Without b (ask job) = no_input job.input ≡ b

given-Without :
    (b : Bool) (value : Option ℕ) (k : ℕ → Setup)
    → ((v : ℕ) → Without b (k v))
    → Without b (given value k)
given-Without b none k h = tt
given-Without b (some v) k h = h v

opened-Without :
    (b : Bool) (file : Option (List ℕ)) (k : List ℕ → Setup)
    → ((content : List ℕ) → Without b (k content))
    → Without b (opened file k)
opened-Without b none k h = tt
opened-Without b (some content) k h = h content

options-Without :
    (b : Bool) (args : List Text) (k : Option Text → ℕ → Setup)
    → ((dump : Option Text) (base : ℕ) → Without b (k dump base))
    → Without b (options args k)
unfolding options
options-Without b [] k h = h none _
options-Without b (dump ∷ []) k h = h (some dump) _
options-Without b (dump ∷ base ∷ args) k h =
    given-Without b (parse_ulong base) _ (λ fb_base. h (some dump) fb_base)

setup_raw-Without : (host : Host) (args : List Text) → Without false (setup_raw host args)
unfolding setup_raw
setup_raw-Without host [] = tt
setup_raw-Without host (path ∷ []) = tt
setup_raw-Without host (path ∷ width ∷ []) = tt
setup_raw-Without host (path ∷ width ∷ height ∷ rest) =
    given-Without false (parse_ulong width) _ (λ w. given-Without false (parse_ulong height) _ (λ h.
      options-Without false rest _
        (λ dump base. opened-Without false (host.files path) _ (λ file. refl))))

headed-Without : (p : Parsed (ℕ × ℕ)) (rest : List Text) → Without false (headed p rest)
headed-Without failed rest = tt
headed-Without exits rest = tt
headed-Without (ok (width, height) pixels) rest = options-Without false rest _ (λ dump base. refl)

setup_ppm-Without : (host : Host) (args : List Text) → Without false (setup_ppm host args)
unfolding setup_ppm
setup_ppm-Without host [] = tt
setup_ppm-Without host (path ∷ rest) =
    opened-Without false (host.files path) _ (λ file. headed-Without (read_ppm_header file) rest)

dump_options-Without :
    (args : List Text) (width height : ℕ) (k : ℕ → ℕ → ℕ → Setup)
    → ((w h base : ℕ) → Without true (k w h base))
    → Without true (dump_options args width height k)
unfolding dump_options
dump_options-Without [] width height k h = h width height _
dump_options-Without (ow ∷ []) width height k h = h width height _
dump_options-Without (ow ∷ oh ∷ []) width height k h =
    given-Without true (parse_ulong ow) _
      (λ w. given-Without true (parse_ulong oh) _ (λ h'. h _ _ _))
dump_options-Without (ow ∷ oh ∷ base ∷ rest) width height k h =
    given-Without true (parse_ulong ow) _ (λ w.
      given-Without true (parse_ulong oh) _
        (λ h'. given-Without true (parse_ulong base) _ (λ b. h _ _ b)))

setup_dump-Without : (args : List Text) → Without true (setup_dump args)
unfolding setup_dump
setup_dump-Without [] = tt
setup_dump-Without (width ∷ []) = tt
setup_dump-Without (width ∷ height ∷ []) = tt
setup_dump-Without (width ∷ height ∷ path ∷ rest) = given-Without true (parse_ulong width) _ (λ w.
    given-Without true (parse_ulong height) _
      (λ h. dump_options-Without rest _ _ _ (λ ow oh base. refl)))

same_text_sound : (s t : Text) → same_text s t ≡ true → s ≡ t
unfolding same_text
same_text_sound [] [] same = refl
same_text_sound [] (y ∷ ys) same = absurd (true≢false (sym same))
same_text_sound (x ∷ xs) [] same = absurd (true≢false (sym same))
same_text_sound (x ∷ xs) (y ∷ ys) same =
    let heads : x ≡ y = ground arith in
    let tails : same_text xs ys ≡ true = ground arith in
    ap (λ c. c ∷ xs) heads ∙ ap (λ cs. y ∷ cs) (same_text_sound xs ys tails)

other_mode :
    (mode known : Text)
    → same_text mode known ≡ true
    → same_text known (codes "dump") ≡ false
    → same_text mode (codes "dump") ≡ false
other_mode mode known same other =
    ap (λ m. same_text m (codes "dump")) (same_text_sound mode known same) ∙ other

setup-Without :
    (host : Host) (mode : Text) (args : List Text)
    → Without (same_text mode (codes "dump")) (setup host (mode ∷ args))
unfolding setup same_text
setup-Without host mode [] = tt
setup-Without host mode (arg ∷ args) = elim (Bool-cases (same_text mode (codes "raw"))) [
  | inl raw ↦ rw (raw, other_mode mode (codes "raw") raw refl) (setup_raw-Without host (arg ∷ args))
  | inr not_raw ↦ elim (Bool-cases (same_text mode (codes "ppm"))) [
    | inl ppm ↦
        rw (not_raw, ppm, other_mode mode (codes "ppm") ppm refl)
          (setup_ppm-Without host (arg ∷ args))
    | inr not_ppm ↦ elim (Bool-cases (same_text mode (codes "dump"))) [
      | inl dump ↦ rw (not_raw, not_ppm, dump) (setup_dump-Without (arg ∷ args))
      | inr other ↦ rw (not_raw, not_ppm, other) tt
    ]
  ]
]

dump_to_lem :
    (host : Host) (job : Job) (path : Option Text) (fb : Store)
    → is_null (dump_to host job path fb) ≡ false
unfolding dump_to
dump_to_lem host job none fb = refl
dump_to_lem host job (some path) fb = elim (Bool-cases (names_file path)) [
  | inl named ↦ elim (Bool-cases (host.writes path)) [
    | inl writes ↦ rw (named, writes) refl
    | inr not_writes ↦ rw (named, not_writes) refl
  ]
  | inr unnamed ↦ rw unnamed refl
]

show_and_dump_lem :
    (host : Host) (job : Job) (fb : Store) → is_null (show_and_dump host job fb) ≡ false
unfolding show_and_dump
show_and_dump_lem host job fb =
    let loaded = load_input job.input job.width job.height fb in
    elim (Bool-cases loaded.0) [
      | inl shown ↦ rw shown (dump_to_lem host job job.dump_path loaded.1)
      | inr not_shown ↦ rw not_shown refl
    ]

give_up_lem : (input : Input) (fb : Store) → is_null (give_up input fb) ≡ no_input input
unfolding give_up
give_up_lem no_file fb = refl
give_up_lem (raw_file file) fb = refl
give_up_lem (ppm_file file) fb = refl

map_and_show-null :
    (host : Host) (job : Job) (bytes : Option ℕ) (fb : Store)
    → is_null (map_and_show host job bytes fb)
      ≡ (no_input job.input && not (maps_bytes host job bytes))
unfolding map_and_show
map_and_show-null host job none fb = ground (arith, give_up_lem job.input fb)
map_and_show-null host job (some bytes) fb = elim (Bool-cases host.mem_opens) [
  | inl opens ↦ elim (Bool-cases (host.maps job.fb_base bytes)) [
    | inl maps ↦ rw (opens, maps) (ground (arith, show_and_dump_lem host job fb))
    | inr unmapped ↦ rw (opens, unmapped) (ground (arith, give_up_lem job.input fb))
  ]
  | inr closed ↦ rw closed (ground (arith, give_up_lem job.input fb))
]

-- Where the arguments ask for a picture, the viewer calls fclose with the null pointer exactly in mode
-- dump, and there exactly where the picture does not fit, or /dev/mem cannot be opened or mapped.
pub main-is_null :
    (host : Host) (mode : Text) (args : List Text) (job : Job) (fb : Store)
    → setup host (mode ∷ args) ≡ ask job
    → is_null (main host (mode ∷ args) fb)
      ≡ (same_text mode (codes "dump") && not (can_map host job))
unfolding main display
main-is_null host mode args job fb asks =
    let bytes = checked_fb_bytes job.width job.height in
    let input : no_input job.input ≡ same_text mode (codes "dump") =
      subst (λ s. Without (same_text mode (codes "dump")) s) asks (setup-Without host mode args) in
    ap (λ s. is_null (follow host s fb)) asks
    ∙ map_and_show-null host job bytes fb
    ∙ ap (λ b. b && not (maps_bytes host job bytes)) input
