-- ===== src/Image/Show.antt =====
-- A picture that the image viewer writes and shows again
-- (hw_bringup/userspace/image_viewer/zx32_image_viewer.c, `main` in the modes dump and ppm).
pub mod Dump
pub mod Again
use zynq_cpu.Base.{
  ℕ, zero, suc, ◌+◌, ◌-◌, ◌*◌, ◌/◌, ◌%◌, ◌^◌, ◌≤◌, ◌<◌, ◌≡◌, refl, ap, ◌∙◌, sym, Store, word, ltb,
  leb, ◌==◌, not, ◌&&◌, ◌||◌, if◌then◌else◌, Bool, Bool-cases, inl, inr, true, false, List, [], ◌∷◌,
  ◌++◌, codes, Option, none, some, arith,
}
use native.Mathlib.Nat.{div-lt_iff_lt-mul, div-add-mod', mod-lt}
use zynq_cpu.Image.{
  vram_bytes, checked_fb_bytes, load_rows, rgb_pixel, rows_bytes, load_ppm, ppm_header,
}
use zynq_cpu.Image.Size.{checked_fb_bytes_lem}
use zynq_cpu.Image.Pixels.{reread, reread-shows, reread-behind, reread-pixel}
use zynq_cpu.Image.Header.{ok, same_text, read_ppm_header}
use zynq_cpu.Image.Header.Tokens.{read_ppm_header-ppm_header}
use zynq_cpu.Image.Viewer.{
  Host, Text, Outcome, ended, null_file, fb_base_default, main, ask, opened, headed, follow,
  job_with, Job, ppm_file, setup, setup_ppm, options, display, map_and_show, show_and_dump, dump_to,
  load_input,
}

-- A picture has pixels, and its bytes have room in the memory of the display.
abbrev pub Fits : ℕ → ℕ → Type 0
Fits width height = (0 < width) × (0 < height) × (width * 4 * height ≤ vram_bytes)

-- The framebuffer can be mapped for a picture.
abbrev pub IsReady : Host → ℕ → ℕ → Type 0
IsReady host width height =
    (host.mem_opens ≡ true) × (host.maps fb_base_default (width * 4 * height) ≡ true)

-- The exit status and a word of the framebuffer at the end.
abbrev pub after : ℕ → Outcome → Option (ℕ × ℕ)
after a null_file = none
after a (ended status fb written) = some (status, fb a)

-- A host with the file an outcome has written.
abbrev pub with_file : Outcome → Host → Host
with_file null_file host = host
with_file (ended status fb none) host = host
with_file (ended status fb (some (path, content))) host = record {
  files = λ q. if same_text q path then some content else host.files q;
  mem_opens = host.mem_opens;
  maps = host.maps;
  writes = host.writes;
}

pub Fits-word : (width height : ℕ) → Fits width height → (width < word) × (height < word)
Fits-word width height fits =
    let a : width * 4 * 1 ≤ width * 4 * height = grind arith in
    let b : 1 * 4 * height ≤ width * 4 * height = grind arith in (omega arith, omega arith)

pub checked_fb_bytes-Fits :
    (width height : ℕ)
    → Fits width height
    → checked_fb_bytes width height ≡ some (width * 4 * height)
checked_fb_bytes-Fits width height fits =
    let (w, h) = Fits-word width height fits in
    ground (arith, checked_fb_bytes_lem width height w h)

-- A word of the framebuffer after the rows are read back.
pub reread-word :
    (at : ℕ → ℕ → ℕ) (src fb : Store) (width n a : ℕ)
    → 0 < width
    → (reread at src width n 0 fb).1 a
      ≡ (if ltb a (n * width) then src (at (a / width) (a % width)) % 2 ^ 24 else fb a)
reread-word at src fb width n a pos = elim (Bool-cases (ltb a (n * width))) [
  | inl inside ↦
      let under : a < n * width = ground arith in
      let row : a / width < n = (div-lt_iff_lt-mul pos).1 under in
      let place : a / width * width + a % width ≡ a = div-add-mod' a width in
      rw inside (
        ap (λ k. (reread at src width n 0 fb).1 k) (sym place)
        ∙ reread-pixel at src width n 0 (a / width) (a % width) fb (omega arith) (omega arith)
            (mod-lt a pos))
  | inr outside ↦ rw outside (reread-behind at src width n 0 a fb (ground arith))
]

same_text_refl : (t : List ℕ) → same_text t t ≡ true
unfolding same_text
same_text_refl [] = refl
same_text_refl (c ∷ cs) =
    let same : (c == c) ≡ true = ground arith in rw (same, same_text_refl cs) refl

-- Where the picture fits and is mapped, `display` shows and dumps.
pub display-Fits :
    (host : Host) (job : Job) (fb : Store)
    → Fits job.width job.height
    → host.mem_opens ≡ true
    → host.maps job.fb_base (job.width * 4 * job.height) ≡ true
    → display host job fb ≡ show_and_dump host job fb
unfolding display map_and_show
display-Fits host job fb fits opens maps =
    ap (λ bytes. map_and_show host job bytes fb) (checked_fb_bytes-Fits job.width job.height fits)
    ∙ rw (map_and_show, opens, maps) refl

setup-ppm :
    (host : Host) (path : Text) (width height : ℕ) (pixels : List ℕ)
    → Fits width height
    → host.files path ≡ some (ppm_header width height pixels)
    → setup host (codes "ppm" ∷ path ∷ [])
      ≡ ask (job_with (ppm_file pixels) width height none fb_base_default 0 0)
unfolding setup setup_ppm same_text options
setup-ppm host path width height pixels fits file =
    let (w, h) = Fits-word width height fits in
    ap (λ f. opened f (λ content. headed (read_ppm_header content) [])) file
    ∙ ap (λ p. headed p []) (read_ppm_header-ppm_header width height pixels fits.0 w fits.1 h)

-- Mode ppm at a file that starts with a header.
pub main-ppm :
    (host : Host) (path : Text) (width height : ℕ) (pixels : List ℕ) (fb : Store)
    → Fits width height
    → IsReady host width height
    → host.files path ≡ some (ppm_header width height pixels)
    → main host (codes "ppm" ∷ path ∷ []) fb ≡ (
        if (load_ppm width height pixels fb).0
        then ended 0 (load_ppm width height pixels fb).1 none
        else ended 1 (load_ppm width height pixels fb).1 none)
unfolding main show_and_dump dump_to load_input
main-ppm host path width height pixels fb fits ready file =
    let job = job_with (ppm_file pixels) width height none fb_base_default 0 0 in
    ap (λ t. follow host t fb) (setup-ppm host path width height pixels fits file)
    ∙ display-Fits host job fb fits ready.0 ready.1

-- A picture in a file is shown, one pixel for each place `at`, of which 24 bits are kept.
pub main-ppm-rows :
    (host : Host) (path : Text) (width height : ℕ) (at : ℕ → ℕ → ℕ) (src fb : Store) (a : ℕ)
    → Fits width height
    → IsReady host width height
    → host.files path ≡ some (ppm_header width height (rows_bytes at src width height 0))
    → after a (main host (codes "ppm" ∷ path ∷ []) fb)
      ≡ some (0, if ltb a (height * width) then src (at (a / width) (a % width)) % 2 ^ 24 else fb a)
unfolding load_ppm
main-ppm-rows host path width height at src fb a fits ready file =
    let shows = reread-shows at src width height 0 fb in
    ap (after a)
      (main-ppm host path width height (rows_bytes at src width height 0) fb fits ready file)
    ∙ rw shows (ap (λ v. some (0, v)) (reread-word at src fb width height a fits.0))
