-- ===== src/Lib.antt =====
-- Verification library for the three assignments of this repository: a shell with variables and
-- scripts (a1/), a shell with a scheduler and demand paging (a2/), and a shell with paged processes
-- and a file system (a3/).
--
-- The parts and their files:
--   Prelude        lists, texts, signed integers, the search loop `scan` that most C loops are, and
--                  `fgets` on a text (Stdio)
--   ShellMemory    the array `shellmemory`, which a1/, a2/ and a3/ each declare: setting and getting
--                  a variable in a region of it (Laws), and what such a call leaves alone (Frame)
--   A1.Memory      a1/shellmemory.c: 1000 slots for variables
--   A1.Words       a1/shell.c: the words of a line of input (Split)
--   A1.Shell       the state of that shell, and how a command ends
--   A1.Interpreter a1/interpreter.c: the commands, over the system as a parameter. Commands is what they
--                  leave alone, Variables setting and echoing, Script the lines of a script
--   A2.Memory      a2/shellmemory.c: FRAMESIZE slots for lines, VARMEMSIZE for variables
--                  (Variables, Lines). Place is mem_set_line, Load load_file; Search and Free are about the
--                  slots that it takes, Behind about the end that it gives
--   A2.Pcb         a2/pcb.c: the process control block and its page table (Pages)
--   A2.ReadyQueue  a2/ready_queue.c: the queue and its sort (Bubble, Sorting), and the choice that
--                  scheduler_AGING of a2/kernel.c makes (Aging)
--   A2.Shell       the state of the shell of a2/, how a call ends, and the system; Errors is enum Error
--   A2.Kernel      a2/kernel.c: execute_process (Pages and Lines are what a line needs and leaves, Execute
--                  a whole call and Execute.Ends its end), load_page (Paging), the schedulers (Schedulers,
--                  Sjf, Policies; Sjf.Popped is the choice of a process), and the
--                  start of a process (Initialize)
--   A2.Interpreter a2/interpreter.c: the commands; Dispatch is the function interpreter, with run and exec,
--                  and ParseInput is parseInput of a2/shell.c, with Line, Rounds, Chain and Stuck;
--                  Counts is about the numbers of words, Quiet about lines that start no process
--   A3.Memory      a3/shellmemory.c: the frame store (Frames) and the variables (Variables)
--   A3.LinkedList  a3/linked_list.c: a doubly linked list on a heap of nodes. Path is the chain of
--                  addresses, Edit a node put in or taken out, Ends the well-formedness of a list;
--                  Init, Push, Pop and Search are the operations
--   A3.Pcb         a3/pcb.c: processes and their pages. Tables is the size of a page table and the end
--                  of a process, Lines and Load are load_PAGE, Evict what is freed
--   A3.Cpu         a3/cpu.c: a line of a process is run, by the interpreter as a parameter
--   A3.Kernel      a3/kernel.c: the ready queue, the cache of pages, in RoundRobin run_proc and
--                  run_proc_RR, and in Fifo run_proc_FIFO, with Repeat. Pids is new_proc and the
--                  search by pid, Fault a page fault, Turns the order of the queue
--   Fs.Cache       a3/fs/cache.c: the buffer cache. View is the content that its clients see;
--                  Steps, WriteBack and Fill are the changes of one entry; Evict, Refine and Trace
--                  are the operations and sequences of them
--   Fs.Inode       a3/fs/inode.c: the sectors of a file (Lookup), read through the buffer cache. Access is
--                  inode_read_at and the loop of inode_write_at; Reserve is inode_reserve; Update is
--                  inode_write_at, with RoundTrip; Sectors is inode_deallocate and
--                  get_inode_data_sectors, with Listing; Open is inode_create and the list of open
--                  inodes, with Openers. In Access, Slice and Read are about reading,
--                  Overlay, Layout, Wrote and Write about writing
--   Fs.File        a3/fs/file.c: open files, over Fs.Inode, and the table of them by name (Table)
--   Fs.Directory   a3/fs/directory.c: the loops over the entries of a directory (Entries), dir_add and what it
--                  is made of (Change; Refused where it fails, Written, Added and RoundTrip where it
--                  succeeds), and paths and dir_remove (Paths)
--   Fs.FileSys     a3/fs/filesys.c: the creation, opening and removal of a file by its path
--   Tests          the theorems at concrete inputs, and runs
--
-- A text is the list of its characters without the closing NUL, so `strcmp(s, t) == 0` is equality of
-- lists. A global array is a list that the functions take and return; the entries of the buffer cache and
-- the sectors of the disk are functions of their indices. A function keeps its C name, in snake case.
-- The build gives the sizes of the memories of a2/ and a3/ (FRAMESIZE, VARMEMSIZE, FRAME_STORE_SIZE,
-- VAR_STORE_SIZE); they are parameters.
--
-- Fuel: the sort of the ready queue has one round for each node and two rounds of its outer loop, the
-- eviction 65 rounds, and the freeing of lines one round for each slot of the array and one more.
-- The search of a linked list has one round for each node and two more, for the dummy tail and NULL.
-- Reading and writing a file has one round more than bytes are asked for, each of which handles at least
-- one. The loops over the entries of a directory have one round more than its file has bytes.
-- The theorems on these functions have no assumption on fuel.
--
-- Scripts that run scripts are bounded by the fuel of `parse_input`, for any fuel but 0 where a theorem
-- is about a single command.
--
-- In a2/, the loops of the schedulers and of parseInput, the search for a name in the backing store, and the
-- nesting of scripts are on fuel. scheduler_SJF is given one round for each process and one more, and parseInput
-- one for each word and one more. The search of load_file has one round for each frame and one more.
--
-- The rounds of run_proc_RR are on fuel too, of which no amount is enough for a process that faults for
-- ever; the theorems on it are about the rounds that it makes. The inner loop of run_proc_FIFO has one
-- round for each line and one more, the outer one any number.
--
-- Parameters: the system that the shells of a1/ and a2/ call (`system`, `chdir`, `stat`, opening a file), what a block of
-- memory can hold, the interpreter that execute_process of a2/kernel.c calls (parseInput is modelled, and
-- is such an argument), the interpreter that `cpu_run` of a3/cpu.c calls (it changes the memory only), the
-- comparison of a linked list, how the machine reads and writes the bytes of a sector as an array of
-- sector numbers, as an inode and as directory entries, the free map's free_map_allocate and free_map_release, which may
-- change the cache, the value that `linesRead` of load_file in a2/ starts with, and scheduler_RR of a2/. An address that `malloc` gives is an argument of the operation that calls it.
--
-- Not modelled: the printing of memory and queues, allocation failure, and the block device under the
-- buffer cache, which is a function of the sector number (the device panics at a sector behind its
-- end). Of a2/kernel.c, scheduler_RR is left out, whose array of processes shares its nodes and pages
-- with the queue, where the model has them by value; schedule_by_policy takes it as an argument. Of a2/shell.c, main is
-- left out. Lines of a script that start
-- processes of their own are left out of
-- a3/kernel.c. The interpreter of a3/ and, of the file system, what is not in a3/fs/cache.c,
-- a3/fs/inode.c, a3/fs/file.c, a3/fs/directory.c and a3/fs/filesys.c are not modelled; of file.c,
-- free_file_table is left out, and of filesys.c what starts and ends the system, and filesys_chdir.
pub mod Prelude
pub mod ShellMemory
pub mod A1
pub mod Fs
pub mod A2
pub mod A3
pub mod Tests
