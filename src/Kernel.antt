-- ===== src/Kernel.antt =====
-- src/nvrtc_kernel.rs: kernels compiled at run time.
use Prim.Native.String.{String, ◌++◌}
use vugva.Common.{ℕ, ◌==◌, List, [], ◌∷◌, if◌then◌else◌}
use vugva.Error.{nvrtc_error}
use vugva.Action.{Action, pure, raise, ask, call, call_for, ◌>>=◌}
use vugva.Display.{signed}

-- The calls of NVRTC and of the driver that the module makes. Each answers its code, with what it writes.
pub record Compiler (W : Type 0) : Type 0 where
  pub create_program : String → String → W → (ℕ × ℕ) × W
  pub compile_program : ℕ → List String → W → ℕ × W
  pub log_size : ℕ → W → ℕ × W
  pub print_log : ℕ → ℕ → W → W
  pub ptx_size : ℕ → W → (ℕ × ℕ) × W
  pub get_ptx : ℕ → ℕ → W → (ℕ × List ℕ) × W
  pub load_module : List ℕ → W → (ℕ × ℕ) × W
  pub get_function : ℕ → String → W → (ℕ × ℕ) × W
  pub unload_module : ℕ → W → W
  pub destroy_program : ℕ → W → W
  pub compute_capability : ℕ → W → (ℕ × (ℕ × ℕ)) × W
  pub launch : ℕ → ℕ × ℕ × ℕ → ℕ × ℕ × ℕ → ℕ → ℕ → List ℕ → W → ℕ × W

pub record CompiledKernel : Type 0 where
  pub cu_module : ℕ
  pub function : ℕ
  pub program : ℕ

-- `check_nvrtc` on a call, and on one that writes to an out-pointer.
abbrev nvrtc_for : {W A : Type 0} → String → (W → (ℕ × A) × W) → Action W A
nvrtc_for fn_name f =
    ask f >>= λ out. if out.0 == 0 then pure out.1 else raise (nvrtc_error fn_name out.0)

module _ {W : Type 0} (nvrtc : Compiler W) where
  -- The log of a failed compilation is read and printed; the codes of that are not looked at.
  abbrev show_log : ℕ → W → W
  show_log program w = let (size, w') = nvrtc.log_size program w in nvrtc.print_log program size w'

  -- No early return destroys the program or unloads the module.
  unfoldable pub compile_and_load : String → String → String → Action W CompiledKernel
  compile_and_load source kernel_name arch =
      nvrtc_for "nvrtcCreateProgram" (nvrtc.create_program source (kernel_name ++ ".cu"))
      >>= λ program.
          ask (nvrtc.compile_program program (("--gpu-architecture=" ++ arch) ∷ []))
          >>= λ compile_res.
              if compile_res == 0
              then (nvrtc_for "nvrtcGetPTXSize" (nvrtc.ptx_size program) >>= λ ptx_size.
                  nvrtc_for "nvrtcGetPTX" (nvrtc.get_ptx program ptx_size) >>= λ ptx.
                  call_for "cuModuleLoadData" (nvrtc.load_module ptx) >>= λ cu_module.
                  call_for "cuModuleGetFunction" (nvrtc.get_function cu_module kernel_name)
                  >>= λ function.
                      pure
                        (record { cu_module = cu_module; function = function; program = program }))
              else (λ w. raise (nvrtc_error "nvrtcCompileProgram" compile_res) (show_log program w))

  unfoldable pub drop_kernel : CompiledKernel → W → W
  drop_kernel k w = nvrtc.destroy_program k.program (nvrtc.unload_module k.cu_module w)

  unfoldable pub detect_sm_arch : ℕ → Action W String
  unfolding signed
  detect_sm_arch gpu_ordinal =
      call_for "cuDeviceComputeCapability" (nvrtc.compute_capability gpu_ordinal) >>= λ capability.
      pure ("sm_" ++ signed capability.0 ++ signed capability.1)

  -- The two kernels differ in their sources, which are constants of the file, and in their names.
  unfoldable pub compile_builtin : String → String → ℕ → Action W CompiledKernel
  unfolding detect_sm_arch compile_and_load
  compile_builtin source kernel_name gpu_ordinal =
      detect_sm_arch gpu_ordinal >>= compile_and_load source kernel_name

  unfoldable pub launch_kernel :
      CompiledKernel → ℕ × ℕ × ℕ → ℕ × ℕ × ℕ → ℕ → ℕ → List ℕ → Action W (Unit {0})
  launch_kernel kernel grid_dim block_dim shared_mem stream args =
      call "cuLaunchKernel" (nvrtc.launch kernel.function grid_dim block_dim shared_mem stream args)
