-- ===== src/Secd/Names.antt =====
-- The syscall names of internal/secd/seccomp.go: the keys of SyscallMap, and the lists of the
-- profiles. The number of a name is the constant unix.SYS_<NAME>, which is a parameter.
use a_from_scratch_linux_use.Base.{List, [], ◌∷◌, Bytes, str}

-- The keys of SyscallMap.
unfoldable pub syscall_names : List Bytes
syscall_names =
    str "read"
    ∷ str "write"
    ∷ str "open"
    ∷ str "close"
    ∷ str "stat"
    ∷ str "fstat"
    ∷ str "lstat"
    ∷ str "poll"
    ∷ str "lseek"
    ∷ str "mmap"
    ∷ str "mprotect"
    ∷ str "munmap"
    ∷ str "brk"
    ∷ str "rt_sigaction"
    ∷ str "rt_sigprocmask"
    ∷ str "rt_sigreturn"
    ∷ str "ioctl"
    ∷ str "pread64"
    ∷ str "pwrite64"
    ∷ str "readv"
    ∷ str "writev"
    ∷ str "access"
    ∷ str "pipe"
    ∷ str "select"
    ∷ str "sched_yield"
    ∷ str "madvise"
    ∷ str "dup"
    ∷ str "dup2"
    ∷ str "getpid"
    ∷ str "pause"
    ∷ str "nanosleep"
    ∷ str "getitimer"
    ∷ str "alarm"
    ∷ str "setitimer"
    ∷ str "getppid"
    ∷ str "getpgrp"
    ∷ str "setsid"
    ∷ str "getuid"
    ∷ str "geteuid"
    ∷ str "getgid"
    ∷ str "getegid"
    ∷ str "arch_prctl"
    ∷ str "gettid"
    ∷ str "futex"
    ∷ str "sched_getaffinity"
    ∷ str "exit"
    ∷ str "exit_group"
    ∷ str "epoll_create"
    ∷ str "epoll_create1"
    ∷ str "epoll_ctl"
    ∷ str "epoll_wait"
    ∷ str "epoll_pwait"
    ∷ str "eventfd"
    ∷ str "eventfd2"
    ∷ str "timerfd_create"
    ∷ str "timerfd_settime"
    ∷ str "timerfd_gettime"
    ∷ str "clock_gettime"
    ∷ str "clock_getres"
    ∷ str "clock_nanosleep"
    ∷ str "fcntl"
    ∷ str "getcwd"
    ∷ str "chdir"
    ∷ str "fchdir"
    ∷ str "mkdir"
    ∷ str "rmdir"
    ∷ str "unlink"
    ∷ str "readlink"
    ∷ str "openat"
    ∷ str "mkdirat"
    ∷ str "unlinkat"
    ∷ str "readlinkat"
    ∷ str "newfstatat"
    ∷ str "pipe2"
    ∷ str "dup3"
    ∷ str "prctl"
    ∷ str "sysinfo"
    ∷ str "uname"
    ∷ str "tgkill"
    ∷ str "execve"
    ∷ str "execveat"
    ∷ str "wait4"
    ∷ str "clone"
    ∷ str "clone3"
    ∷ str "fork"
    ∷ str "vfork"
    ∷ str "sigaltstack"
    ∷ str "set_robust_list"
    ∷ str "get_robust_list"
    ∷ str "set_tid_address"
    ∷ str "set_thread_area"
    ∷ str "gettimeofday"
    ∷ str "rseq"
    ∷ str "prlimit64"
    ∷ str "getrandom"
    ∷ str "socket"
    ∷ str "connect"
    ∷ str "accept"
    ∷ str "sendto"
    ∷ str "recvfrom"
    ∷ str "sendmsg"
    ∷ str "recvmsg"
    ∷ str "shutdown"
    ∷ str "bind"
    ∷ str "listen"
    ∷ str "getsockname"
    ∷ str "getpeername"
    ∷ str "socketpair"
    ∷ str "setsockopt"
    ∷ str "getsockopt"
    ∷ str "accept4"
    ∷ str "reboot"
    ∷ str "kexec_load"
    ∷ str "init_module"
    ∷ str "delete_module"
    ∷ str "swapon"
    ∷ str "swapoff"
    ∷ str "pivot_root"
    ∷ str "ptrace"
    ∷ []

-- The `allowedNames` of the profile "strict".
unfoldable pub strict_names : List Bytes
strict_names =
    str "read"
    ∷ str "write"
    ∷ str "close"
    ∷ str "fstat"
    ∷ str "mmap"
    ∷ str "mprotect"
    ∷ str "munmap"
    ∷ str "brk"
    ∷ str "rt_sigaction"
    ∷ str "rt_sigprocmask"
    ∷ str "rt_sigreturn"
    ∷ str "exit"
    ∷ str "exit_group"
    ∷ str "futex"
    ∷ str "arch_prctl"
    ∷ str "getrandom"
    ∷ str "nanosleep"
    ∷ str "set_tid_address"
    ∷ str "set_thread_area"
    ∷ str "gettimeofday"
    ∷ []

-- The `allowedNames` of the profile "app-default".
unfoldable pub app_default_names : List Bytes
app_default_names =
    str "read"
    ∷ str "write"
    ∷ str "open"
    ∷ str "close"
    ∷ str "stat"
    ∷ str "fstat"
    ∷ str "lstat"
    ∷ str "poll"
    ∷ str "lseek"
    ∷ str "mmap"
    ∷ str "mprotect"
    ∷ str "munmap"
    ∷ str "brk"
    ∷ str "rt_sigaction"
    ∷ str "rt_sigprocmask"
    ∷ str "rt_sigreturn"
    ∷ str "ioctl"
    ∷ str "pread64"
    ∷ str "pwrite64"
    ∷ str "readv"
    ∷ str "writev"
    ∷ str "access"
    ∷ str "pipe"
    ∷ str "select"
    ∷ str "sched_yield"
    ∷ str "madvise"
    ∷ str "dup"
    ∷ str "dup2"
    ∷ str "getpid"
    ∷ str "pause"
    ∷ str "nanosleep"
    ∷ str "getppid"
    ∷ str "getpgrp"
    ∷ str "setsid"
    ∷ str "getuid"
    ∷ str "geteuid"
    ∷ str "getgid"
    ∷ str "getegid"
    ∷ str "arch_prctl"
    ∷ str "gettid"
    ∷ str "futex"
    ∷ str "sched_getaffinity"
    ∷ str "exit"
    ∷ str "exit_group"
    ∷ str "epoll_create"
    ∷ str "epoll_create1"
    ∷ str "epoll_ctl"
    ∷ str "epoll_wait"
    ∷ str "epoll_pwait"
    ∷ str "eventfd"
    ∷ str "eventfd2"
    ∷ str "timerfd_create"
    ∷ str "timerfd_settime"
    ∷ str "timerfd_gettime"
    ∷ str "clock_gettime"
    ∷ str "clock_getres"
    ∷ str "clock_nanosleep"
    ∷ str "fcntl"
    ∷ str "getcwd"
    ∷ str "chdir"
    ∷ str "fchdir"
    ∷ str "mkdir"
    ∷ str "rmdir"
    ∷ str "unlink"
    ∷ str "readlink"
    ∷ str "openat"
    ∷ str "mkdirat"
    ∷ str "unlinkat"
    ∷ str "readlinkat"
    ∷ str "newfstatat"
    ∷ str "pipe2"
    ∷ str "dup3"
    ∷ str "prctl"
    ∷ str "sysinfo"
    ∷ str "uname"
    ∷ str "tgkill"
    ∷ str "execve"
    ∷ str "execveat"
    ∷ str "wait4"
    ∷ str "clone"
    ∷ str "clone3"
    ∷ str "fork"
    ∷ str "vfork"
    ∷ str "sigaltstack"
    ∷ str "set_robust_list"
    ∷ str "get_robust_list"
    ∷ str "rseq"
    ∷ str "prlimit64"
    ∷ str "getrandom"
    ∷ str "set_tid_address"
    ∷ str "set_thread_area"
    ∷ str "gettimeofday"
    ∷ str "socket"
    ∷ str "connect"
    ∷ str "accept"
    ∷ str "sendto"
    ∷ str "recvfrom"
    ∷ str "sendmsg"
    ∷ str "recvmsg"
    ∷ str "shutdown"
    ∷ str "bind"
    ∷ str "listen"
    ∷ str "getsockname"
    ∷ str "getpeername"
    ∷ str "socketpair"
    ∷ str "setsockopt"
    ∷ str "getsockopt"
    ∷ str "accept4"
    ∷ []

-- The `allowedNames` of the profile "net-service".
unfoldable pub net_service_names : List Bytes
net_service_names =
    str "read"
    ∷ str "write"
    ∷ str "open"
    ∷ str "close"
    ∷ str "stat"
    ∷ str "fstat"
    ∷ str "lstat"
    ∷ str "poll"
    ∷ str "lseek"
    ∷ str "mmap"
    ∷ str "mprotect"
    ∷ str "munmap"
    ∷ str "brk"
    ∷ str "rt_sigaction"
    ∷ str "rt_sigprocmask"
    ∷ str "rt_sigreturn"
    ∷ str "ioctl"
    ∷ str "pread64"
    ∷ str "pwrite64"
    ∷ str "readv"
    ∷ str "writev"
    ∷ str "access"
    ∷ str "pipe"
    ∷ str "select"
    ∷ str "sched_yield"
    ∷ str "madvise"
    ∷ str "dup"
    ∷ str "dup2"
    ∷ str "getpid"
    ∷ str "pause"
    ∷ str "nanosleep"
    ∷ str "getppid"
    ∷ str "getpgrp"
    ∷ str "setsid"
    ∷ str "getuid"
    ∷ str "geteuid"
    ∷ str "getgid"
    ∷ str "getegid"
    ∷ str "arch_prctl"
    ∷ str "gettid"
    ∷ str "futex"
    ∷ str "sched_getaffinity"
    ∷ str "exit"
    ∷ str "exit_group"
    ∷ str "epoll_create"
    ∷ str "epoll_create1"
    ∷ str "epoll_ctl"
    ∷ str "epoll_wait"
    ∷ str "epoll_pwait"
    ∷ str "eventfd"
    ∷ str "eventfd2"
    ∷ str "timerfd_create"
    ∷ str "timerfd_settime"
    ∷ str "timerfd_gettime"
    ∷ str "clock_gettime"
    ∷ str "clock_getres"
    ∷ str "clock_nanosleep"
    ∷ str "fcntl"
    ∷ str "getcwd"
    ∷ str "chdir"
    ∷ str "fchdir"
    ∷ str "mkdir"
    ∷ str "rmdir"
    ∷ str "unlink"
    ∷ str "readlink"
    ∷ str "openat"
    ∷ str "mkdirat"
    ∷ str "unlinkat"
    ∷ str "readlinkat"
    ∷ str "newfstatat"
    ∷ str "pipe2"
    ∷ str "dup3"
    ∷ str "prctl"
    ∷ str "sysinfo"
    ∷ str "uname"
    ∷ str "tgkill"
    ∷ str "execve"
    ∷ str "execveat"
    ∷ str "wait4"
    ∷ str "clone"
    ∷ str "clone3"
    ∷ str "fork"
    ∷ str "vfork"
    ∷ str "sigaltstack"
    ∷ str "set_robust_list"
    ∷ str "get_robust_list"
    ∷ str "rseq"
    ∷ str "prlimit64"
    ∷ str "getrandom"
    ∷ str "set_tid_address"
    ∷ str "set_thread_area"
    ∷ str "gettimeofday"
    ∷ str "socket"
    ∷ str "connect"
    ∷ str "accept"
    ∷ str "sendto"
    ∷ str "recvfrom"
    ∷ str "sendmsg"
    ∷ str "recvmsg"
    ∷ str "shutdown"
    ∷ str "bind"
    ∷ str "listen"
    ∷ str "getsockname"
    ∷ str "getpeername"
    ∷ str "socketpair"
    ∷ str "setsockopt"
    ∷ str "getsockopt"
    ∷ str "accept4"
    ∷ []
