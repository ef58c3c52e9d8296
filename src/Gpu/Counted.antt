-- ===== src/Gpu/Counted.antt =====
-- The number of commands that the GPU's demo prints
-- (hw_bringup/userspace/gpu_demo/zx32_gpu_demo.c, `render_scene`).
use zynq_cpu.Base.{
  ℕ, zero, suc, ◌+◌, ◌^◌, ◌<◌, ◌≡◌, ◌≢◌, ◌↔◌, inl, inr, refl, ap, sym, ◌∙◌, word, sub32, bit_and,
  ◌==◌, if◌then◌else◌, Bool, Bool-cases, true, false, List, [], ◌∷◌, length, Option, none, some,
  arith,
}
use mathlib.Core.Bool.{true≢false}
use zynq_cpu.Mailbox.{poll_loop}
use zynq_cpu.Gpu.Registers.{
  gpu_control, gpu_status, gpu_fb_addr, gpu_fb_stride, gpu_fb_size, gpu_color, gpu_rect_origin,
  gpu_rect_size, gpu_cmd_submit, gpu_cmd_done,
}
use zynq_cpu.Gpu.Smoke.{Gpu, judge_gpu, write_registers}
use zynq_cpu.Gpu.Scene.{Command, scene}
use zynq_cpu.Gpu.Demo.{
  look_at_fifo, wait_fifo_space, command_registers, submit_cmd, submit_all, set_demo, unless_seen,
  after_scene, finish, render_scene,
}

-- A GPU that counts the commands of its queue: a reset starts the count again, a read changes nothing of
-- it, and once the GPU is done its register has the number submitted since the reset.
pub record Counts {D : Type 0} (gpu : Gpu D) (end_polls : ℕ) (submitted : D → ℕ) : Type 0 where
  pub reset : (d : D) → submitted (gpu.mmio_write gpu_control (2 ^ 31) d) ≡ 0
  pub submit : (v : ℕ) (d : D) → submitted (gpu.mmio_write gpu_cmd_submit v d) ≡ submitted d + 1
  pub set :
      (off v : ℕ) (d : D)
      → off ≢ gpu_control
      → off ≢ gpu_cmd_submit
      → submitted (gpu.mmio_write off v d) ≡ submitted d
  pub read : (off : ℕ) (d : D) → submitted (gpu.mmio_read off d).1 ≡ submitted d
  pub done :
      (d : D)
      → let r = poll_loop gpu.mmio_read gpu_status judge_gpu (suc end_polls) 0 d in
        r.0 ≡ 0 → (gpu.mmio_read gpu_cmd_done r.2).0 ≡ submitted d

module _ {D : Type 0} (gpu : Gpu D) (polls end_polls : ℕ) (submitted : D → ℕ)
    (counts : Counts gpu end_polls submitted) where
  look_at_fifo_lem : (d : D) → submitted (look_at_fifo gpu polls end_polls d).1 ≡ submitted d
  unfolding look_at_fifo
  look_at_fifo_lem d = counts.read gpu_status _ ∙ counts.read gpu_cmd_submit d

  unless_seen_lem :
      (r : Option Bool × D) (n : ℕ) (next : D → Bool × D)
      → ((d : D) → submitted (next d).1 ≡ submitted d)
      → submitted (unless_seen gpu polls end_polls r next).1 ≡ submitted r.1
  unless_seen_lem (none, d) n next same = same d
  unless_seen_lem (some room, d) n next same = refl

  wait_fifo_space_lem :
      (n : ℕ) (d : D) → submitted (wait_fifo_space gpu polls end_polls n d).1 ≡ submitted d
  unfolding wait_fifo_space
  wait_fifo_space_lem zero d =
      unless_seen_lem (look_at_fifo gpu polls end_polls d) 0 (λ d'. (false, d')) (λ d'. refl)
      ∙ look_at_fifo_lem d
  wait_fifo_space_lem (suc n) d =
      unless_seen_lem (look_at_fifo gpu polls end_polls d) n
        (λ d'. wait_fifo_space gpu polls end_polls n d') (λ d'. wait_fifo_space_lem n d')
      ∙ look_at_fifo_lem d

  -- The writes of a command count once.
  command_lem :
      (c : Command) (d : D)
      → submitted (write_registers gpu (command_registers gpu polls end_polls c) d)
        ≡ submitted d + 1
  unfolding write_registers
  command_lem c d =
      counts.submit _ _
      ∙ ap (λ n. n + 1)
          (counts.set gpu_rect_size _ _ (omega arith) (omega arith)
            ∙ counts.set gpu_rect_origin _ _ (omega arith) (omega arith)
            ∙ counts.set gpu_color _ d (omega arith) (omega arith))

  picked_lem :
      (room : Bool) (ok : Bool) (d1 d0 : D)
      → (let r : Bool × D = if room then (ok, d1) else (false, d0) in r.0 ≡ true → r.1 ≡ d1)
  picked_lem true ok d1 d0 e = refl
  picked_lem false ok d1 d0 e = absurd (true≢false (sym e))

  submit_cmd_lem :
      (c : Command) (d : D)
      → (submit_cmd gpu polls end_polls c d).0 ≡ true
      → submitted (submit_cmd gpu polls end_polls c d).1 ≡ submitted d + 1
  unfolding submit_cmd
  submit_cmd_lem c d e =
      let room = wait_fifo_space gpu polls end_polls polls d in
      let set_up = write_registers gpu (command_registers gpu polls end_polls c) room.1 in
      let status = gpu.mmio_read gpu_status set_up in
      ap submitted (picked_lem room.0 (bit_and status.0 4 == 0) status.1 room.1 e)
      ∙ counts.read gpu_status set_up
      ∙ command_lem c room.1
      ∙ ap (λ n. n + 1) (wait_fifo_space_lem polls d)

  submit_all_lem :
      (cs : List Command) (d : D)
      → (submit_all gpu polls end_polls cs d).0 ≡ true
      → submitted (submit_all gpu polls end_polls cs d).1 ≡ submitted d + length cs
  unfolding submit_all
  submit_all_lem [] d e = omega arith
  submit_all_lem (c ∷ cs) d e =
      let r = submit_cmd gpu polls end_polls c d in
      let rest = submit_all gpu polls end_polls cs r.1 in
      elim (Bool-cases r.0) [
        | inl ok ↦
            let here = submit_cmd_lem c d ok in
            let later = submit_all_lem cs r.1 (rw ok at e) in rw ok (later ∙ omega (arith, here))
        | inr failed ↦ absurd (true≢false (sym (rw failed at e)))
      ]

  set_demo_lem : (d : D) → submitted (write_registers gpu (set_demo gpu polls end_polls) d) ≡ 0
  unfolding write_registers
  set_demo_lem d =
      counts.set gpu_fb_size _ _ (omega arith) (omega arith)
      ∙ counts.set gpu_fb_stride _ _ (omega arith) (omega arith)
      ∙ counts.set gpu_fb_addr _ _ (omega arith) (omega arith)
      ∙ counts.reset d

  after_scene_lem :
      (before code status : ℕ) (d : D) (printed : ℕ)
      → (code ≡ 0 → (gpu.mmio_read gpu_cmd_done d).0 ≡ 34)
      → (after_scene gpu polls end_polls before (code, status, d)).0 ≡ some printed
      → printed ≡ sub32 34 before
  after_scene_lem before code status d printed counted e = elim (Bool-cases (code == 0)) [
    | inl ok ↦
        let number = counted (ground (arith, ok)) in
        let shown : some (sub32 (gpu.mmio_read gpu_cmd_done d).0 before) ≡ some printed =
          rw ok at e in
        ground (arith, number, shown)
    | inr failed ↦
        let shown : ◌≡◌ {A = Option ℕ} none (some printed) = rw failed at e in
        absurd (ground (arith, shown))
  ]

  finish_lem :
      (before : ℕ) (ok : Bool) (d : D) (printed : ℕ)
      → (ok ≡ true → submitted d ≡ 34)
      → (finish gpu polls end_polls before (ok, d)).0 ≡ some printed
      → printed ≡ sub32 34 before
  finish_lem before true d printed sent e =
      let w = poll_loop gpu.mmio_read gpu_status judge_gpu (suc end_polls) 0 d in
      after_scene_lem before w.0 w.1 w.2 printed (λ done. counts.done d done ∙ sent refl) e
  finish_lem before false d printed sent e =
      let shown : ◌≡◌ {A = Option ℕ} none (some printed) = e in absurd (ground (arith, shown))

  -- With a GPU that starts its count again at a reset, and whose count before the scene is a word, a
  -- scene that is drawn prints 34, its number of commands, less that count, which is 34 just where that
  -- count was 0.
  pub render_scene_lem :
      (d : D) (printed : ℕ)
      → (render_scene gpu polls end_polls d).0 ≡ some printed
      → (gpu.mmio_read gpu_cmd_done d).0 < word
      → (printed ≡ sub32 34 (gpu.mmio_read gpu_cmd_done d).0)
        × ((printed ≡ 34) ↔ ((gpu.mmio_read gpu_cmd_done d).0 ≡ 0))
  unfolding render_scene
  render_scene_lem d printed e small =
      let before = gpu.mmio_read gpu_cmd_done d in
      let set_up = write_registers gpu (set_demo gpu polls end_polls) before.1 in
      let r = submit_all gpu polls end_polls scene set_up in
      let sent : r.0 ≡ true → submitted r.1 ≡ 34 = λ ok.
        let all = submit_all_lem scene set_up ok in
        let none_before = set_demo_lem before.1 in omega (arith, all, none_before) in
      let number = finish_lem before.0 r.0 r.1 printed sent e in
      (number, (λ p. omega (arith, number, p, small), λ z. omega (arith, number, z)))
