-- ===== src/Gpu/Demo.antt =====
-- The GPU's demo (hw_bringup/userspace/gpu_demo/zx32_gpu_demo.c): a scene of 34 commands, drawn through the
-- command queue, and its two ways out of the framebuffer. The GPU and the clock are as in the smoke test.
use zynq_cpu.Base.{
  ℕ, zero, suc, ◌+◌, ◌*◌, ◌/◌, ◌^◌, Store, sub32, bit_and, leb, ◌==◌, not, ◌&&◌, if◌then◌else◌,
  Bool, true, false, List, [], ◌∷◌, ◌++◌, Option, none, some,
}
use zynq_cpu.Mailbox.{poll_loop}
use zynq_cpu.Image.{write_ppm}
use zynq_cpu.Gpu.Registers.{
  gpu_control, gpu_status, gpu_fb_addr, gpu_fb_stride, gpu_fb_size, gpu_color, gpu_rect_origin,
  gpu_rect_size, gpu_cmd_submit, gpu_cmd_done,
}
use zynq_cpu.Gpu.Scene.{
  demo_width, demo_height, color_bg, color_grid, color_axis, color_face, color_edge, color_hilite,
  Command, scene,
}
use zynq_cpu.Gpu.Smoke.{Gpu, judge_gpu, command, put_all, cleared_words, write_registers}

-- The character that stands for a pixel, and which of several pixels is shown.
unfoldable pub pixel_char : ℕ → ℕ
pixel_char px =
    if px == color_bg
    then b' '
    else if px == color_grid
    then b'.'
    else if px == color_axis
    then b'+'
    else if px == color_face
    then b'='
    else if px == color_edge
    then b'#'
    else if px == color_hilite
    then b'*'
    else b'@'

unfoldable pub pixel_priority : ℕ → ℕ
pixel_priority px =
    if px == color_hilite
    then 6
    else if px == color_edge
    then 5
    else if px == color_face
    then 4
    else if px == color_axis
    then 3
    else if px == color_grid
    then 2
    else if px == color_bg
    then 0
    else 1

-- The later of two pixels, unless it has the lower priority.
unfoldable pub choose : ℕ → ℕ → ℕ
choose chosen px = if leb (pixel_priority chosen) (pixel_priority px) then px else chosen

-- A square of 2 by 2 pixels; the picture has an even width and an even height.
unfoldable pub chosen_pixel : Store → ℕ → ℕ → ℕ
chosen_pixel fb x y =
    choose
      (choose (choose (choose color_bg (fb (y * demo_width + x))) (fb (y * demo_width + (x + 1))))
        (fb ((y + 1) * demo_width + x)))
      (fb ((y + 1) * demo_width + (x + 1)))

unfoldable pub ascii_row : Store → ℕ → ℕ → ℕ → List ℕ
ascii_row fb y zero x = 10 ∷ []
ascii_row fb y (suc n) x = pixel_char (chosen_pixel fb x y) ∷ ascii_row fb y n (x + 2)

unfoldable pub ascii_rows : Store → ℕ → ℕ → List ℕ
ascii_rows fb zero y = []
ascii_rows fb (suc n) y = ascii_row fb y (demo_width / 2) 0 ++ ascii_rows fb n (y + 2)

unfoldable pub print_ascii : Store → List ℕ
print_ascii fb = ascii_rows fb (demo_height / 2) 0

-- How the program ends: with a status and nothing shown, or with status 0 and a picture.
pub data Shown : Type 0 where
  failed : ℕ → Shown
  on_screen : List ℕ → Shown
  in_file : List ℕ → Shown

pub data Mode : Type 0 where
  ascii : Mode
  ppm : Mode
  other : Mode

module _ {D : Type 0} (gpu : Gpu D) (polls end_polls : ℕ) where
  -- Whether the queue has room, an error ends the wait, or neither.
  unfoldable pub look_at_fifo : D → Option Bool × D
  look_at_fifo d =
      let fifo = gpu.mmio_read gpu_cmd_submit d in
      let status = gpu.mmio_read gpu_status fifo.1 in
      (
        if not (bit_and status.0 4 == 0)
            then some false
            else if bit_and fifo.0 2 == 0
            then some true
            else none,
        status.1,
      )

  abbrev pub unless_seen : Option Bool × D → (D → Bool × D) → Bool × D
  unless_seen (none, d) next = next d
  unless_seen (some room, d) next = (room, d)

  -- There is one look at least, and the clock allows `n` more.
  unfoldable pub wait_fifo_space : ℕ → D → Bool × D
  wait_fifo_space zero d = unless_seen (look_at_fifo d) (λ d'. (false, d'))
  wait_fifo_space (suc n) d = unless_seen (look_at_fifo d) (λ d'. wait_fifo_space n d')

  abbrev pub command_registers : Command → List (ℕ × ℕ)
  command_registers c =
      (gpu_color, c.color)
      ∷ (gpu_rect_origin, c.y0 * 2 ^ 16 + c.x0)
      ∷ (gpu_rect_size, c.y1 * 2 ^ 16 + c.x1)
      ∷ (gpu_cmd_submit, command c.op)
      ∷ []

  unfoldable pub submit_cmd : Command → D → Bool × D
  submit_cmd c d =
      let room = wait_fifo_space polls d in
      let status = gpu.mmio_read gpu_status (write_registers gpu (command_registers c) room.1) in
      if room.0 then (bit_and status.0 4 == 0, status.1) else (false, room.1)

  -- The first command that fails ends the scene.
  unfoldable pub submit_all : List Command → D → Bool × D
  submit_all [] d = (true, d)
  submit_all (c ∷ later) d =
      let r = submit_cmd c d in
      let rest = submit_all later r.1 in if r.0 then rest else (false, r.1)

  abbrev pub set_demo : List (ℕ × ℕ)
  set_demo =
      (gpu_control, 2 ^ 31)
      ∷ (gpu_fb_addr, 0xBC000000)
      ∷ (gpu_fb_stride, demo_width * 4)
      ∷ (gpu_fb_size, demo_height * 2 ^ 16 + demo_width)
      ∷ []

  abbrev pub after_scene : ℕ → ℕ × ℕ × D → Option ℕ × D
  after_scene before (code, status, d) =
      let after = gpu.mmio_read gpu_cmd_done d in
      if code == 0 then (some (sub32 after.0 before), after.1) else (none, d)

  abbrev pub finish : ℕ → Bool × D → Option ℕ × D
  finish before (submitted, d) =
      let r =
        after_scene before (poll_loop gpu.mmio_read gpu_status judge_gpu (suc end_polls) 0 d) in
      if submitted then r else (none, d)

  -- The number of commands that is printed, where the scene is drawn.
  unfoldable pub render_scene : D → Option ℕ × D
  render_scene d =
      let before = gpu.mmio_read gpu_cmd_done d in
      finish before.0 (submit_all scene (write_registers gpu set_demo before.1))

  abbrev pub show_scene : Bool → Mode → Option ℕ × D → Shown
  show_scene writable mode (none, d) = failed 1
  show_scene writable ascii (some printed, d) = on_screen (print_ascii (gpu.pixels d))
  show_scene writable ppm (some printed, d) =
      if writable then in_file (write_ppm (gpu.pixels d) demo_width demo_height) else failed 1
  show_scene writable other (some printed, d) = failed 2

  -- /dev/mem opens or not, both maps succeed or not, and a file can be written or not.
  unfoldable pub demo_main : Bool → Bool → Bool → Mode → D → Shown
  demo_main opened mapped writable mode d =
      let r = render_scene (put_all gpu (cleared_words 0 (demo_width * demo_height)) d) in
      if opened && mapped then show_scene writable mode r else failed 1
