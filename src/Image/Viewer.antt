-- ===== src/Image/Viewer.antt =====
-- The program of the image viewer (hw_bringup/userspace/image_viewer/zx32_image_viewer.c, `main`): its
-- three modes, from the arguments to the exit status, the framebuffer and the file it writes. What the
-- file system and the mapping of /dev/mem answer is the host's; a string of the arguments has no NUL.
use zynq_cpu.Base.{
  ℕ, ◌%◌, ◌^◌, Store, ◌==◌, not, ◌&&◌, ◌||◌, if◌then◌else◌, Bool, true, List, [], ◌∷◌, codes,
  Option, none, some,
}
use zynq_cpu.Image.{checked_fb_bytes, load_ppm, load_raw_xrgb, write_ppm, write_ppm_scaled}
use zynq_cpu.Image.Number.{parse_ulong}
use zynq_cpu.Image.Header.{same_text, Parsed, ok, failed, exits, read_ppm_header}

abbrev pub fb_base_default : ℕ
fb_base_default = 0xBC00_0000

abbrev pub Text : Type 0
Text = List ℕ

-- The files that can be opened, whether /dev/mem opens and maps (a base, a number of bytes), and whether
-- a file can be written in full.
pub record Host : Type 0 where
  pub files : Text → Option (List ℕ)
  pub mem_opens : Bool
  pub maps : ℕ → ℕ → Bool
  pub writes : Text → Bool

-- The open file, at the place where its pixels start; in mode `dump` there is none.
pub data Input : Type 0 where
  raw_file : List ℕ → Input
  ppm_file : List ℕ → Input
  no_file : Input

pub record Job : Type 0 where
  pub input : Input
  pub width : ℕ
  pub height : ℕ
  pub dump_path : Option Text
  pub fb_base : ℕ
  pub out_width : ℕ
  pub out_height : ℕ

abbrev pub job_with : Input → ℕ → ℕ → Option Text → ℕ → ℕ → ℕ → Job
job_with input width height dump_path fb_base out_width out_height = record {
  input = input;
  width = width;
  height = height;
  dump_path = dump_path;
  fb_base = fb_base;
  out_width = out_width;
  out_height = out_height;
}

-- What the arguments ask for, or the exit status.
pub data Setup : Type 0 where
  ask : Job → Setup
  stop : ℕ → Setup

-- `null_file` is a call of fclose with the null pointer, which C leaves undefined. Else the exit status,
-- the framebuffer, and the file that was written in full.
pub data Outcome : Type 0 where
  ended : ℕ → Store → Option (Text × List ℕ) → Outcome
  null_file : Outcome

abbrev pub given : Option ℕ → (ℕ → Setup) → Setup
given none k = stop 2
given (some value) k = k value

-- The dump path and the base of the framebuffer behind the others.
unfoldable pub options : List Text → (Option Text → ℕ → Setup) → Setup
options [] k = k none fb_base_default
options (dump ∷ []) k = k (some dump) fb_base_default
options (dump ∷ base ∷ _) k = given (parse_ulong base) (λ fb_base. k (some dump) fb_base)

abbrev pub opened : Option (List ℕ) → (List ℕ → Setup) → Setup
opened none k = stop 1
opened (some file) k = k file

unfoldable pub setup_raw : Host → List Text → Setup
setup_raw host (path ∷ width_text ∷ height_text ∷ rest) = given (parse_ulong width_text) (λ width.
    given (parse_ulong height_text) (λ height. options rest (λ dump fb_base.
      opened (host.files path) (λ file.
        ask (job_with (raw_file file) (width % 2 ^ 32) (height % 2 ^ 32) dump fb_base 0 0)))))
setup_raw host _ = stop 2

abbrev pub headed : Parsed (ℕ × ℕ) → List Text → Setup
headed failed rest = stop 1
headed exits rest = stop 2
headed (ok (width, height) pixels) rest =
    options rest (λ dump fb_base. ask (job_with (ppm_file pixels) width height dump fb_base 0 0))

unfoldable pub setup_ppm : Host → List Text → Setup
setup_ppm host [] = stop 2
setup_ppm host (path ∷ rest) = opened (host.files path) (λ file. headed (read_ppm_header file) rest)

-- A single argument behind the path is not read.
unfoldable pub dump_options : List Text → ℕ → ℕ → (ℕ → ℕ → ℕ → Setup) → Setup
dump_options (out_width_text ∷ out_height_text ∷ rest) width height k =
    given (parse_ulong out_width_text) (λ out_width.
      given (parse_ulong out_height_text) (λ out_height. elim rest [
        | [] ↦ k (out_width % 2 ^ 32) (out_height % 2 ^ 32) fb_base_default
        | base ∷ _ ↦
            given (parse_ulong base)
              (λ fb_base. k (out_width % 2 ^ 32) (out_height % 2 ^ 32) fb_base)
      ]))
dump_options _ width height k = k width height fb_base_default

unfoldable pub setup_dump : List Text → Setup
setup_dump (width_text ∷ height_text ∷ path ∷ rest) = given (parse_ulong width_text) (λ width.
    given (parse_ulong height_text) (λ height.
      dump_options rest (width % 2 ^ 32) (height % 2 ^ 32) (λ out_width out_height fb_base. ask (
        job_with no_file (width % 2 ^ 32) (height % 2 ^ 32) (some path) fb_base out_width
          out_height))))
setup_dump _ = stop 2

-- The arguments without the program's name.
unfoldable pub setup : Host → List Text → Setup
setup host (mode ∷ arg ∷ args) =
    if same_text mode (codes "raw")
    then setup_raw host (arg ∷ args)
    else if same_text mode (codes "ppm")
    then setup_ppm host (arg ∷ args)
    else if same_text mode (codes "dump")
    then setup_dump (arg ∷ args)
    else stop 2
setup host _ = stop 2

-- fclose(fp) and the exit status 1.
unfoldable pub give_up : Input → Store → Outcome
give_up no_file fb = null_file
give_up (raw_file file) fb = ended 1 fb none
give_up (ppm_file file) fb = ended 1 fb none

unfoldable pub load_input : Input → ℕ → ℕ → Store → Bool × Store
load_input (raw_file file) width height fb = load_raw_xrgb width height file fb
load_input (ppm_file file) width height fb = load_ppm width height file fb
load_input no_file width height fb = (true, fb)

unfoldable pub dump_picture : Job → Store → List ℕ
dump_picture job fb =
    if (not (job.out_width == 0) && not (job.out_height == 0))
      && (not (job.out_width == job.width) || not (job.out_height == job.height))
    then write_ppm_scaled fb job.width job.height job.out_width job.out_height
    else write_ppm fb job.width job.height

abbrev pub names_file : Text → Bool
names_file path = not (same_text path []) && not (same_text path (codes "-"))

unfoldable pub dump_to : Host → Job → Option Text → Store → Outcome
dump_to host job none fb = ended 0 fb none
dump_to host job (some path) fb =
    if not (names_file path)
    then ended 0 fb none
    else if host.writes path
    then ended 0 fb (some (path, dump_picture job fb))
    else ended 1 fb none

-- With the framebuffer mapped.
unfoldable pub show_and_dump : Host → Job → Store → Outcome
show_and_dump host job fb =
    let (shown, fb') = load_input job.input job.width job.height fb in
    if shown then dump_to host job job.dump_path fb' else ended 1 fb' none

unfoldable pub map_and_show : Host → Job → Option ℕ → Store → Outcome
map_and_show host job none fb = give_up job.input fb
map_and_show host job (some bytes) fb =
    if not host.mem_opens
    then give_up job.input fb
    else if not (host.maps job.fb_base bytes)
    then give_up job.input fb
    else show_and_dump host job fb

unfoldable pub display : Host → Job → Store → Outcome
display host job fb = map_and_show host job (checked_fb_bytes job.width job.height) fb

abbrev pub follow : Host → Setup → Store → Outcome
follow host (stop status) fb = ended status fb none
follow host (ask job) fb = display host job fb

unfoldable pub main : Host → List Text → Store → Outcome
main host args fb = follow host (setup host args) fb
