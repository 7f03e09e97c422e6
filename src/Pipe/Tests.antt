-- ===== src/Pipe/Tests.antt =====
-- Runs of a pipe (pipe.c) whose counters are about to wrap.
use osce.Prelude.{refl, true, none, [], ◌∷◌, replicate, ◌++◌, arith, Always}
use osce.Proc.Table.{PTable, blank, running, ProcState}
use osce.Pipe.{Pipe, chan_nread, chan_nwrite, pipewrite, piperead}
use osce.Pipe.Queue.{IsValid, Writes, Reads, pipewrite-Written, piperead-Read}

-- One byte, at counter 2 ^ 32 - 1.
abbrev wrapping : Pipe
wrapping = record {
  addr = 4096;
  buf = replicate 511 0 ++ (42 ∷ []);
  nread = 4294967295;
  nwrite = 0;
  readopen = true;
  writeopen = true;
}

wrapping-IsValid : IsValid wrapping
wrapping-IsValid = record {
  placed = omega arith;
  size = refl;
  reads = omega arith;
  writes = omega arith;
  fits = omega arith;
}

-- Process 0 runs; process 1 waits for bytes, process 2 for room.
abbrev three : PTable
three = record {
  procs =
      record blank { state = running }
      ∷ record blank { state = ProcState.sleeping; chan = chan_nread wrapping }
      ∷ record blank { state = ProcState.sleeping; chan = chan_nwrite wrapping }
      ∷ [];
  initproc = none;
  nextpid = 4;
}

pipewrite-Written_example :
    Always (Writes 0 (7 ∷ 8 ∷ []) wrapping) (pipewrite 0 (7 ∷ 8 ∷ []) wrapping three)
pipewrite-Written_example = pipewrite-Written 0 (7 ∷ 8 ∷ []) wrapping three wrapping-IsValid

piperead-Read_example : Always (Reads 0 5 wrapping) (piperead 0 5 wrapping three)
piperead-Read_example = piperead-Read 0 5 wrapping three wrapping-IsValid
