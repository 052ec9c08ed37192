-- ===== src/Poller.antt =====
-- The pollers: src/Poller.h, src/EPollPoller.cpp and src/PollPoller.cpp.
pub mod Store
pub mod Epoll
pub mod PollPoller
